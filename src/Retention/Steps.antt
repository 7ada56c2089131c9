-- ===== src/Retention/Steps.antt =====
-- One turn of the loop of `deleteExpiredGroupMessages` in zooid/retention.go.
use unicity_relay.Prelude.{
  leb, string_eq, nat_eq, length, every, contains, contains-append, ℕ, suc, ◌+◌, ◌<◌, String, ◌≡◌,
  refl, sym, ap, ◌∙◌, Bool, true, false, not, Option, none, some, List, [], ◌∷◌, ◌++◌, arith,
}
use unicity_relay.Nostr.{Event}
use unicity_relay.Events.Table.{TagRow, Database}
use unicity_relay.Events.Store.{
  Outcome, commits, conflicts, expires, faults, Reply, EventStore, set_database,
}
use unicity_relay.Retention.{
  retention_delete_batch_size, Planner, expired_ids, delete_in, Batch, affected, batch_ids,
  on_reply, delete_one_retention_batch, delete_batches,
}
use unicity_relay.Retention.Counts.{select_ext}
use unicity_relay.Retention.Batches.{
  expired_ids-delete_in, delete_in-delete_in, delete_in_none, affected-delete_in, batch_all,
}

abbrev pub is_quiet : List Reply → Bool
is_quiet [] = true
is_quiet (reply ∷ plan) = false

-- What a run of the loop comes to, from `total` deletions and a database; `quiet` says that no
-- statement of it fails.
pub record Ends ⦃planner : Planner⦄ (group : String) (cutoff : ℕ) (quiet : Bool) (total : ℕ)
    (db : Database) (result : Option (ℕ × EventStore)) : Type 0 where
  pub deletions : ℕ
  pub after : EventStore
  pub returns : result ≡ some (deletions, after)
  pub deleted : List ℕ
  pub left : after.database ≡ delete_in deleted db
  pub were_expired :
      (i : ℕ) → contains deleted i ≡ true → contains (expired_ids group cutoff db) i ≡ true
  pub count : deletions + length after.database.rows ≡ total + length db.rows
  pub complete :
      quiet ≡ true → (i : ℕ) → contains deleted i ≡ contains (expired_ids group cutoff db) i

pub every_contained :
    (p : ℕ → Bool) (ids : List ℕ)
    → ((i : ℕ) → contains ids i ≡ true → p i ≡ true)
    → every p ids ≡ true
unfolding every contains
every_contained p [] held = refl
every_contained p (i ∷ ids) held = ground (
  arith,
  held i,
  nat_eq.beq_iff i i,
  every_contained p ids (λ j found. held j (ground (arith, found))),
)

pub delete_in_same :
    (ids more : List ℕ) (db : Database)
    → ((i : ℕ) → contains ids i ≡ contains more i)
    → delete_in ids db ≡ delete_in more db
unfolding delete_in
delete_in_same ids more db same = λ i. record {
  rows =
      select_ext (λ (row : Event). not (contains ids row.id)) (λ row. not (contains more row.id))
        db.rows (λ row. ap not (same row.id)) i;
  tag_rows =
      select_ext (λ (t : TagRow). not (contains ids t.event_id))
        (λ t. not (contains more t.event_id)) db.tag_rows (λ t. ap not (same t.event_id)) i;
}

module _ ⦃planner : Planner⦄ (group : String) (cutoff : ℕ) where
  -- What follows a batch in the loop.
  abbrev pub after_batch : ℕ → ℕ → Batch × EventStore → Option (ℕ × EventStore)
  after_batch left total (none, st) = some (total, st)
  after_batch left total (some (rows, true), st) =
      delete_batches left group cutoff (total + rows) st
  after_batch left total (some (rows, false), st) = some (total + rows, st)

  pub delete_batches_step :
      (left total : ℕ) (st : EventStore)
      → delete_batches (suc left) group cutoff total st
        ≡ after_batch left total (delete_one_retention_batch group cutoff st)
  unfolding delete_batches
  delete_batches_step left total st = shape (delete_one_retention_batch group cutoff st)
    where
      shape :
          (r : Batch × EventStore)
          → elim r.0 [
            | none ↦ some (total, r.1)
            | some (rows, more) ↦ elim more [
              | true ↦ delete_batches left group cutoff (total + rows) r.1
              | false ↦ some (total + rows, r.1)
            ]
          ]
            ≡ after_batch left total r
      shape (none, st₁) = refl
      shape (some (rows, true), st₁) = refl
      shape (some (rows, false), st₁) = refl

  pub unsettled :
      {quiet : Bool} {total : ℕ} {db : Database} {result : Option (ℕ × EventStore)}
      → Ends group cutoff quiet total db result
      → Ends group cutoff false total db result
  unsettled e = record {
    deletions = e.deletions;
    after = e.after;
    returns = e.returns;
    deleted = e.deleted;
    left = e.left;
    were_expired = e.were_expired;
    count = e.count;
    complete = λ quiet. absurd cc;
  }

  failed :
      (left total : ℕ) (st : EventStore)
      → Ends group cutoff false total st.database (after_batch left total (none, st))
  failed left total st = record {
    deletions = total;
    after = st;
    returns = refl;
    deleted = [];
    left = sym (delete_in_none st.database);
    were_expired = λ i found. unfold contains in absurd cc;
    count = refl;
    complete = λ quiet. absurd cc;
  }

  pub committed :
      (left total : ℕ) (quiet : Bool) (st : EventStore)
      → ((rows : ℕ) (st₁ : EventStore)
          → st₁.plan ≡ st.plan
          → length st₁.database.rows < left
          → Ends group cutoff quiet
              (total + rows)
              st₁.database
              (delete_batches left group cutoff (total + rows) st₁))
      → length st.database.rows < suc left
      → Ends group cutoff quiet total st.database
          (after_batch left total (on_reply (batch_ids group cutoff st.database) (commits, st)))
  committed left total quiet st next bound = go (leb retention_delete_batch_size rows) refl
    where
      ids : List ℕ
      ids = batch_ids group cutoff st.database

      rows : ℕ
      rows = affected ids st.database

      st₁ : EventStore
      st₁ = set_database st (delete_in ids st.database)

      split : rows + length st₁.database.rows ≡ length st.database.rows
      split = affected-delete_in ids st.database

      go :
          (more : Bool)
          → leb retention_delete_batch_size rows ≡ more
          → Ends group cutoff quiet total st.database
              (after_batch left total (some (rows, more), st₁))
      go true full =
          let rest = next rows st₁ refl (ground (arith, full, split, bound)) in
          record {
            deletions = rest.deletions;
            after = rest.after;
            returns = rest.returns;
            deleted = ids ++ rest.deleted;
            left = rest.left ∙ delete_in-delete_in ids rest.deleted st.database;
            were_expired = λ i found. ground (
              arith,
              found,
              contains-append ids rest.deleted i,
              rest.were_expired i,
              expired_ids-delete_in group cutoff ids st.database i,
              planner.limit-contains retention_delete_batch_size
                  (expired_ids group cutoff st.database) i,
            );
            count = omega (arith, rest.count, split);
            complete = λ q i. ground (
              arith,
              contains-append ids rest.deleted i,
              rest.complete q i,
              expired_ids-delete_in group cutoff ids st.database i,
              planner.limit-contains retention_delete_batch_size
                  (expired_ids group cutoff st.database) i,
            );
          }
      go false last = record {
        deletions = total + rows;
        after = st₁;
        returns = refl;
        deleted = ids;
        left = refl;
        were_expired = λ i found.
            planner.limit-contains retention_delete_batch_size
              (expired_ids group cutoff st.database) i found;
        count = omega (arith, split);
        complete = λ q. batch_all group cutoff st.database (ground (arith, last));
      }

  pub replied :
      (left total : ℕ) (outcome : Outcome) (st : EventStore)
      → ((rows : ℕ) (st₁ : EventStore)
          → st₁.plan ≡ st.plan
          → length st₁.database.rows < left
          → Ends group cutoff false
              (total + rows)
              st₁.database
              (delete_batches left group cutoff (total + rows) st₁))
      → length st.database.rows < suc left
      → Ends group cutoff false total st.database
          (after_batch left total (on_reply (batch_ids group cutoff st.database) (outcome, st)))
  replied left total commits st next bound = committed left total false st next bound
  replied left total conflicts st next bound = failed left total st
  replied left total expires st next bound = failed left total st
  replied left total faults st next bound = failed left total st
