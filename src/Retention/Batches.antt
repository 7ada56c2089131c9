-- ===== src/Retention/Batches.antt =====
-- What one DELETE of zooid/retention.go takes, and what is expired afterwards.
use unicity_relay.Prelude.{
  ltb, if◌then◌else◌, Bool-cases, string_eq, nat_eq, ◌==◌, ==_iff, length, select, exists,
  exists-select, exists_mono, contains, contains-append, ℕ, ◌+◌, ◌≤◌, ◌<◌, String, ◌≡◌, refl, sym,
  ap, ◌∙◌, inl, inr, Bool, true, false, not, ◌&&◌, List, [], ◌∷◌, ◌++◌, map, arith,
}
use unicity_relay.Nostr.{Event}
use unicity_relay.Events.Table.{TagRow, Database}
use unicity_relay.Retention.{
  retention_delete_batch_size, Planner, is_expired, expired_ids, delete_in, affected, batch_ids,
}
use unicity_relay.Retention.Counts.{
  length-select_split, select_ext, length-Unique, contains-distinct, distinct-Unique,
}

exists_ext {ℓ} :
    {A : Type ℓ} (p q : A → Bool) (xs : List A) → ((x : A) → p x ≡ q x) → exists p xs ≡ exists q xs
unfolding exists
exists_ext p q [] same = refl
exists_ext p q (x ∷ xs) same = ground (arith, same x, exists_ext p q xs same)

select-select {ℓ} :
    {A : Type ℓ} (p q : A → Bool) (xs : List A)
    → select p (select q xs) ≡ select (λ x. q x && p x) xs
unfolding select
select-select p q [] = refl
select-select p q (x ∷ xs) = go (q x) (p x) (select-select p q xs)
  where
    go :
        (b c : Bool)
        → select p (select q xs) ≡ select (λ x. q x && p x) xs
        → select p (if b then x ∷ select q xs else select q xs)
          ≡ (if b && p x then x ∷ select (λ x. q x && p x) xs else select (λ x. q x && p x) xs)
    go true c ih = ap (λ rest. if p x then x ∷ rest else rest) ih
    go false c ih = ih

contains-ids :
    (p : Event → Bool) (rows : List Event) (i : ℕ)
    → contains (map (λ (row : Event). row.id) (select p rows)) i
      ≡ exists (λ (row : Event). p row && row.id == i) rows
unfolding select contains exists
contains-ids p [] i = refl
contains-ids p (row ∷ rows) i = ground (arith, contains-ids p rows i)

-- An id counts as expired when a row with it is.
pub expired_ids-contains :
    (group : String) (cutoff : ℕ) (db : Database) (i : ℕ)
    → contains (expired_ids group cutoff db) i
      ≡ exists (λ (row : Event). is_expired group cutoff db.tag_rows row && row.id == i) db.rows
unfolding expired_ids
expired_ids-contains group cutoff db i =
    contains-distinct
      (map (λ (row : Event). row.id) (select (is_expired group cutoff db.tag_rows) db.rows)) i
    ∙ contains-ids (is_expired group cutoff db.tag_rows) db.rows i

-- The tags of a row that is kept are kept.
is_expired-delete_in :
    (group : String) (cutoff : ℕ) (ids : List ℕ) (tag_rows : List TagRow) (row : Event)
    → contains ids row.id ≡ false
    → is_expired group cutoff (select (λ (t : TagRow). not (contains ids t.event_id)) tag_rows) row
      ≡ is_expired group cutoff tag_rows row
unfolding is_expired
is_expired-delete_in group cutoff ids tag_rows row kept =
    ap (λ b. b && (contains (9 ∷ 10 ∷ []) row.kind && ltb row.created_at cutoff))
      (exists-select (λ (t : TagRow). t.event_id == row.id && (t.key == "h" && t.value == group))
          (λ (t : TagRow). not (contains ids t.event_id)) tag_rows
        ∙ exists_ext
            (λ (t : TagRow).
              not (contains ids t.event_id)
              && (t.event_id == row.id && (t.key == "h" && t.value == group)))
            (λ (t : TagRow). t.event_id == row.id && (t.key == "h" && t.value == group)) tag_rows
            (λ t. own t.event_id (t.key == "h" && t.value == group)))
  where
    own : (i : ℕ) (b : Bool) → (not (contains ids i) && (i == row.id && b)) ≡ (i == row.id && b)
    own i b = elim (Bool-cases (i == row.id)) [
      | inl same ↦ ground (arith, ap (λ k. contains ids k) ((==_iff i row.id).0 same), kept)
      | inr other ↦ ground (arith, other)
    ]

-- After a DELETE, what is expired is what was and has not been taken.
pub expired_ids-delete_in :
    (group : String) (cutoff : ℕ) (ids : List ℕ) (db : Database) (i : ℕ)
    → contains (expired_ids group cutoff (delete_in ids db)) i
      ≡ (contains (expired_ids group cutoff db) i && not (contains ids i))
unfolding delete_in exists
expired_ids-delete_in group cutoff ids db i =
    expired_ids-contains group cutoff (delete_in ids db) i
    ∙ (exists-select
          (λ (row : Event). is_expired group cutoff (delete_in ids db).tag_rows row && row.id == i)
          (λ (row : Event). not (contains ids row.id)) db.rows
        ∙ (over db.rows
            ∙ ap (λ b. b && not (contains ids i)) (sym (expired_ids-contains group cutoff db i))))
  where
    one :
        (row : Event)
        → (not (contains ids row.id)
            && (is_expired group cutoff (delete_in ids db).tag_rows row && row.id == i))
          ≡ ((is_expired group cutoff db.tag_rows row && row.id == i) && not (contains ids i))
    one row = elim (Bool-cases (row.id == i)) [
      | inr other ↦ ground (arith, other)
      | inl same ↦ elim (Bool-cases (contains ids row.id)) [
        | inl taken ↦ ground (arith, taken, ap (λ k. contains ids k) ((==_iff row.id i).0 same))
        | inr kept ↦ ground (
          arith,
          kept,
          ap (λ k. contains ids k) ((==_iff row.id i).0 same),
          is_expired-delete_in group cutoff ids db.tag_rows row kept,
        )
      ]
    ]

    over :
        (rows : List Event)
        → exists
            (λ (row : Event).
              not (contains ids row.id)
              && (is_expired group cutoff (delete_in ids db).tag_rows row && row.id == i))
            rows
          ≡ (exists (λ (row : Event). is_expired group cutoff db.tag_rows row && row.id == i) rows
              && not (contains ids i))
    over [] = refl
    over (row ∷ rows) = ground (arith, one row, over rows)

-- Two DELETEs are one.
pub delete_in-delete_in :
    (ids more : List ℕ) (db : Database)
    → delete_in more (delete_in ids db) ≡ delete_in (ids ++ more) db
unfolding delete_in
delete_in-delete_in ids more db = λ i. record {
  rows = both (λ (row : Event). row.id) db.rows i;
  tag_rows = both (λ (t : TagRow). t.event_id) db.tag_rows i;
}
  where
    both :
        {A : Type 0} (id : A → ℕ) (xs : List A)
        → select (λ x. not (contains more (id x))) (select (λ x. not (contains ids (id x))) xs)
          ≡ select (λ x. not (contains (ids ++ more) (id x))) xs
    both id xs =
        select-select (λ x. not (contains more (id x))) (λ x. not (contains ids (id x))) xs
        ∙ select_ext (λ x. not (contains ids (id x)) && not (contains more (id x)))
            (λ x. not (contains (ids ++ more) (id x))) xs
            (λ x. ground (arith, contains-append ids more (id x)))

-- Nothing is deleted by no ids.
pub delete_in_none : (db : Database) → delete_in [] db ≡ db
unfolding delete_in contains select
delete_in_none db = λ i. record { rows = all db.rows i; tag_rows = all db.tag_rows i }
  where
    all : {A : Type 0} (xs : List A) → select (λ x. true) xs ≡ xs
    all [] = refl
    all (x ∷ xs) = ap (λ rest. x ∷ rest) (all xs)

-- The rows that a DELETE takes and those that it leaves are all.
pub affected-delete_in :
    (ids : List ℕ) (db : Database)
    → affected ids db + length (delete_in ids db).rows ≡ length db.rows
unfolding affected delete_in
affected-delete_in ids db = length-select_split (λ (row : Event). contains ids row.id) db.rows

module _ ⦃planner : Planner⦄ where
  -- Fewer rows than the limit are taken only when nothing expired is left.
  pub batch_all :
      (group : String) (cutoff : ℕ) (db : Database)
      → affected (batch_ids group cutoff db) db < retention_delete_batch_size
      → (i : ℕ) → contains (batch_ids group cutoff db) i ≡ contains (expired_ids group cutoff db) i
  batch_all group cutoff db few =
      planner.limit_all retention_delete_batch_size (expired_ids group cutoff db) fits
    where
      held :
          (i : ℕ)
          → contains (batch_ids group cutoff db) i ≡ true
          → exists (λ (row : Event). row.id == i) db.rows ≡ true
      held i found =
          exists_mono (λ (row : Event). is_expired group cutoff db.tag_rows row && row.id == i)
            (λ (row : Event). row.id == i) db.rows (λ row both. ground arith)
            (sym (expired_ids-contains group cutoff db i)
              ∙ planner.limit-contains retention_delete_batch_size (expired_ids group cutoff db) i
                  found)

      rows_taken : length (batch_ids group cutoff db) ≤ affected (batch_ids group cutoff db) db
      rows_taken =
          unfold affected expired_ids in
          length-Unique (λ (row : Event). row.id) db.rows (batch_ids group cutoff db)
            (planner.limit-Unique retention_delete_batch_size (expired_ids group cutoff db) (
              distinct-Unique (
                map (λ (row : Event). row.id)
                  (select (is_expired group cutoff db.tag_rows) db.rows))))
            held

      fits : length (expired_ids group cutoff db) ≤ retention_delete_batch_size
      fits = ground (
        arith,
        rows_taken,
        few,
        planner.limit-length retention_delete_batch_size (expired_ids group cutoff db),
      )
