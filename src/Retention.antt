-- ===== src/Retention.antt =====
-- zooid/retention.go: the deletion of expired chat messages, in batches, on the two tables of the
-- event store. Each statement takes the next reply of the plan; `RowsAffected` does not fail with the
-- PostgreSQL driver.
pub mod Counts
pub mod Batches
pub mod Steps
pub mod Runs
pub mod Passes
pub mod Clean
use unicity_relay.Prelude.{
  ltb, leb, if◌then◌else◌, string_eq, nat_eq, ◌==◌, length, select, exists, contains, add, ℕ, zero,
  suc, ◌+◌, ◌≤◌, String, ◌≡◌, Bool, true, false, not, ◌&&◌, Option, none, some, List, [], ◌∷◌, map,
}
use unicity_relay.Nostr.{Event}
use unicity_relay.Events.Table.{TagRow, Database}
use unicity_relay.Events.Store.{
  Outcome, commits, conflicts, expires, faults, EventStore, next_reply, set_database,
}

abbrev pub retention_delete_batch_size : ℕ
retention_delete_batch_size = 10000

-- The ids, each once, in a list.
abbrev pub Unique : List ℕ → Type 0
Unique [] = Unit {0}
Unique (i ∷ ids) = (contains ids i ≡ false) × Unique ids

-- What LIMIT leaves of a SELECT without an ORDER BY is up to PostgreSQL: at most `n` of the rows, all
-- of them if there are no more, and none that is not there.
pub record Planner : Type 0 where
  pub limit : ℕ → List ℕ → List ℕ
  pub limit-contains :
      (n : ℕ) (ids : List ℕ) (i : ℕ) → contains (limit n ids) i ≡ true → contains ids i ≡ true
  pub limit-length :
      (n : ℕ) (ids : List ℕ) → length (limit n ids) ≡ (if ltb n (length ids) then n else length ids)
  pub limit_all :
      (n : ℕ) (ids : List ℕ) → length ids ≤ n → (i : ℕ) → contains (limit n ids) i ≡ contains ids i
  pub limit-Unique : (n : ℕ) (ids : List ℕ) → Unique ids → Unique (limit n ids)

-- SELECT DISTINCT of one column.
unfoldable pub distinct : List ℕ → List ℕ
distinct [] = []
distinct (i ∷ ids) = add i (distinct ids)

-- The WHERE clause of the subquery: `t.key = 'h'`, `t.value = group`, the kinds and the time.
unfoldable pub is_expired : String → ℕ → List TagRow → Event → Bool
is_expired group cutoff tag_rows row =
    exists (λ (t : TagRow). t.event_id == row.id && (t.key == "h" && t.value == group)) tag_rows
    && (contains (9 ∷ 10 ∷ []) row.kind && ltb row.created_at cutoff)

unfoldable pub expired_ids : String → ℕ → Database → List ℕ
unfolding is_expired distinct
expired_ids group cutoff db =
    distinct (map (λ (row : Event). row.id) (select (is_expired group cutoff db.tag_rows) db.rows))

-- DELETE … WHERE id IN (…), with ON DELETE CASCADE for the tags.
unfoldable pub delete_in : List ℕ → Database → Database
delete_in ids db = record db {
  rows = select (λ (row : Event). not (contains ids row.id)) db.rows;
  tag_rows = select (λ (t : TagRow). not (contains ids t.event_id)) db.tag_rows;
}

-- `rowsAffected` and `more`, or an error.
abbrev pub Batch : Type 0
Batch = Option (ℕ × Bool)

unfoldable pub affected : List ℕ → Database → ℕ
affected ids db = length (select (λ (row : Event). contains ids row.id) db.rows)

module _ ⦃planner : Planner⦄ where
  abbrev pub batch_ids : String → ℕ → Database → List ℕ
  batch_ids group cutoff db =
      planner.limit retention_delete_batch_size (expired_ids group cutoff db)

  abbrev pub on_reply : List ℕ → Outcome × EventStore → Batch × EventStore
  on_reply ids (commits, st) =
      let rows = affected ids st.database in
      (
        some (rows, leb retention_delete_batch_size rows),
        set_database st (delete_in ids st.database),
      )
  on_reply ids (conflicts, st) = (none, st)
  on_reply ids (expires, st) = (none, st)
  on_reply ids (faults, st) = (none, st)

  unfoldable pub delete_one_retention_batch : String → ℕ → EventStore → Batch × EventStore
  delete_one_retention_batch group cutoff st =
      on_reply (batch_ids group cutoff st.database) (next_reply st)

  -- The loop, for so many batches at most: `none` where it has not ended by then.
  unfoldable pub delete_batches : ℕ → String → ℕ → ℕ → EventStore → Option (ℕ × EventStore)
  delete_batches zero group cutoff total st = none
  delete_batches (suc left) group cutoff total st =
      let (batch, st₁) = delete_one_retention_batch group cutoff st in
      elim batch [
        | none ↦ some (total, st₁)
        | some (rows, more) ↦ elim more [
          | true ↦ delete_batches left group cutoff (total + rows) st₁
          | false ↦ some (total + rows, st₁)
        ]
      ]

  -- A batch that is not the last deletes something, so there are at most this many.
  unfoldable pub delete_expired_group_messages : String → ℕ → EventStore → Option (ℕ × EventStore)
  unfolding delete_batches
  delete_expired_group_messages group cutoff st =
      delete_batches (suc (length st.database.rows)) group cutoff 0 st
