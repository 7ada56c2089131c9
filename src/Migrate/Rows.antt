-- ===== src/Migrate/Rows.antt =====
-- The batches of `migrateTable` in cmd/migrate/main.go against one INSERT after the other.
use mathlib.Core.List.{append-nil, append_assoc}
use unicity_relay.Prelude.{
  leb, string_eq, nat_eq, length, String, ◌≡◌, refl, sym, ap, ◌∙◌, subst, Bool, true, false, Option,
  none, some, List, [], ◌∷◌, ◌++◌, map, arith,
}
use unicity_relay.Migrate.{
  Row, Postgres, batch_size, Answer, and_then, insert_rows, insert_batch, final_batch, copy_rows,
}

module _ (db : Postgres) (table : String) (cols : List String) where
  abbrev insert_next : List Row → Option db.State → Option db.State
  insert_next rows none = none
  insert_next rows (some s) = insert_rows db table cols rows s

  insert_rows-append :
      (xs ys : List Row) (s : db.State)
      → insert_rows db table cols (xs ++ ys) s ≡ insert_next ys (insert_rows db table cols xs s)
  unfolding insert_rows
  insert_rows-append [] ys s = refl
  insert_rows-append (x ∷ xs) ys s = go (db.insert_row table cols x s) (insert_rows-append xs ys)
    where
      go :
          (o : Option db.State)
          → ((s₁ : db.State)
              → insert_rows db table cols (xs ++ ys) s₁
                ≡ insert_next ys (insert_rows db table cols xs s₁))
          → elim o [ none ↦ none | some s₁ ↦ insert_rows db table cols (xs ++ ys) s₁ ]
            ≡ insert_next ys (elim o [ none ↦ none | some s₁ ↦ insert_rows db table cols xs s₁ ])
      go none ih = refl
      go (some s₁) ih = ih s₁

  -- What an answer has to do with the INSERTs of all the rows: it is their state if they succeed, and
  -- otherwise an error, with the state behind some of the first rows.
  abbrev pub Agrees : List Row → db.State → Option db.State → Answer db → Type 0
  Agrees rows s (some s₁) answer = answer ≡ (true, s₁)
  Agrees rows s none answer =
      (answer.0 ≡ false)
      × (done : List Row) × (rest : List Row) × (rows ≡ done ++ rest)
      × (insert_rows db table cols done s ≡ some answer.1)

  insert_batch-Agrees :
      (batch : List Row) (s : db.State)
      → Agrees batch s (insert_rows db table cols batch s) (insert_batch db table cols batch s)
  unfolding insert_batch
  insert_batch-Agrees batch s = go (insert_rows db table cols batch s)
    where
      go :
          (o : Option db.State)
          → Agrees batch s o (elim o [ none ↦ (false, s) | some s₁ ↦ (true, s₁) ])
      go none = (refl, [], batch, refl, unfold insert_rows in refl)
      go (some s₁) = refl

  final_batch-Agrees :
      (batch : List Row) (s : db.State)
      → Agrees batch s (insert_rows db table cols batch s) (final_batch db table cols batch s)
  final_batch-Agrees [] s = unfold insert_rows in refl
  final_batch-Agrees (row ∷ batch) s = insert_batch-Agrees (row ∷ batch) s

  -- A batch and what follows it.
  and_then-Agrees :
      (batch rows : List Row) (s : db.State) (o : Option db.State) (a : Answer db)
      (f : db.State → Answer db)
      → insert_rows db table cols batch s ≡ o
      → Agrees batch s o a
      → ((s₁ : db.State) → Agrees rows s₁ (insert_rows db table cols rows s₁) (f s₁))
      → Agrees (batch ++ rows) s (insert_next rows o) (and_then db a f)
  and_then-Agrees batch rows s none (true, s₁) f e agrees ih = absurd (ground (arith, agrees.0))
  and_then-Agrees batch rows s none (false, s₁) f e (bad, done, rest, parts, ran) ih =
      (refl, done, rest ++ rows, ap (λ xs. xs ++ rows) parts ∙ append_assoc done rest rows, ran)
  and_then-Agrees batch rows s (some s₁) a f e same ih =
      subst
        (λ (b : Answer db).
          Agrees (batch ++ rows) s (insert_rows db table cols rows s₁) (and_then db b f))
        (sym same) (widen (insert_rows db table cols rows s₁) (f s₁) (ih s₁))
    where
      widen :
          (r : Option db.State) (b : Answer db) → Agrees rows s₁ r b → Agrees (batch ++ rows) s r b
      widen none b (bad, done, rest, parts, ran) = (
        bad,
        batch ++ done,
        rest,
        ap (λ xs. batch ++ xs) parts ∙ sym (append_assoc batch done rest),
        insert_rows-append batch done s ∙ (ap (insert_next done) e ∙ ran),
      )
      widen (some s₂) b agrees = agrees

  copy_rows_from :
      (rows batch : List Row) (s : db.State)
      → Agrees
          (batch ++ rows)
          s
          (insert_rows db table cols (batch ++ rows) s)
          (copy_rows db table cols (map some rows) batch s)
  unfolding copy_rows
  copy_rows_from [] batch s =
      subst
        (λ (xs : List Row).
          Agrees xs s (insert_rows db table cols xs s) (final_batch db table cols batch s))
        (sym (append-nil batch)) (final_batch-Agrees batch s)
  copy_rows_from (values ∷ rows) batch s =
      subst
        (λ (xs : List Row).
          Agrees xs s (insert_rows db table cols xs s)
            (copy_rows db table cols (some values ∷ map some rows) batch s))
        (append_assoc batch (values ∷ []) rows)
        (go (leb batch_size (length full)) (copy_rows_from rows full s) (copy_rows_from rows []))
    where
      full : List Row
      full = batch ++ values ∷ []

      go :
          (b : Bool)
          → Agrees
              (full ++ rows)
              s
              (insert_rows db table cols (full ++ rows) s)
              (copy_rows db table cols (map some rows) full s)
          → ((s₁ : db.State)
              → Agrees rows s₁
                  (insert_rows db table cols rows s₁)
                  (copy_rows db table cols (map some rows) [] s₁))
          → Agrees (full ++ rows) s (insert_rows db table cols (full ++ rows) s) (elim b [
            | true ↦
                and_then db
                  (insert_batch db table cols full s)
                  (copy_rows db table cols (map some rows) [])
            | false ↦ copy_rows db table cols (map some rows) full s
          ])
      go false later fresh = later
      go true later fresh =
          subst
            (λ (o : Option db.State). Agrees (full ++ rows) s o (
              and_then db (insert_batch db table cols full s)
                (copy_rows db table cols (map some rows) [])))
            (sym (insert_rows-append full rows s))
            (and_then-Agrees full rows s (insert_rows db table cols full s)
              (insert_batch db table cols full s) (copy_rows db table cols (map some rows) []) refl
              (insert_batch-Agrees full s) fresh)

  -- The transactions of 500 rows come to the same as inserting all rows in order: to the same state
  -- if every INSERT succeeds, and otherwise to an error, with the rows of the transactions before.
  pub copy_rows-inserts :
      (rows : List Row) (s : db.State)
      → Agrees rows s
          (insert_rows db table cols rows s)
          (copy_rows db table cols (map some rows) [] s)
  copy_rows-inserts rows s = copy_rows_from rows [] s
