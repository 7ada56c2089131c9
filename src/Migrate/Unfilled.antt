-- ===== src/Migrate/Unfilled.antt =====
-- The events table stays empty while cmd/migrate/main.go creates the tables and copies others.
use mathlib.Core.Option.{some-injective, none-ne-some}
use unicity_relay.Prelude.{
  leb, if◌then◌else◌, string_eq, nat_eq, ◌==◌, length, ℕ, String, ◌≡◌, refl, subst, Bool, true,
  false, Option, none, some, List, [], ◌∷◌, ◌++◌,
}
use unicity_relay.Migrate.{
  Row, Source, Statement, Postgres, statements, batch_size, Answer, exec_all, and_then,
  create_tables, insert_rows, insert_batch, copy_rows, copy_table, migrate_counted, migrate_table,
}

-- What PostgreSQL does while the events table is empty: no statement of the tool makes it otherwise
-- but an INSERT into it, and the foreign key refuses every row of the tags table.
pub record References (db : Postgres) (event_tags events : String) : Type 0 where
  pub exec_keeps :
      (statement : Statement) (s s₁ : db.State)
      → db.exec statement s ≡ some s₁
      → db.count_rows events s ≡ some 0
      → db.count_rows events s₁ ≡ some 0
  pub insert_keeps :
      (table : String) (cols : List String) (row : Row) (s s₁ : db.State)
      → (table == events) ≡ false
      → db.insert_row table cols row s ≡ some s₁
      → db.count_rows events s ≡ some 0
      → db.count_rows events s₁ ≡ some 0
  pub refuses :
      (cols : List String) (row : Row) (s : db.State)
      → db.count_rows events s ≡ some 0
      → db.insert_row event_tags cols row s ≡ none

module _ (db : Postgres) (event_tags events : String) (fk : References db event_tags events) where
  abbrev pub Empty : db.State → Type 0
  Empty s = db.count_rows events s ≡ some 0

  abbrev EmptyAfter : Answer db → Type 0
  EmptyAfter answer = Empty answer.1

  abbrev pub Fails : Answer db → Type 0
  Fails answer = answer.0 ≡ false

  and_then-Empty :
      (a : Answer db) (f : db.State → Answer db)
      → Empty a.1
      → ((s : db.State) → Empty s → Empty (f s).1)
      → Empty (and_then db a f).1
  and_then-Empty (true, s) f e next = next s e
  and_then-Empty (false, s) f e next = e

  exec_all-Empty : (todo : List Statement) (s : db.State) → Empty s → Empty (exec_all db todo s).1
  unfolding exec_all
  exec_all-Empty [] s e = e
  exec_all-Empty (statement ∷ todo) s e =
      go (db.exec statement s)
        (λ s₁ ran. exec_all-Empty todo s₁ (fk.exec_keeps statement s s₁ ran e))
    where
      go :
          (o : Option db.State)
          → ((s₁ : db.State) → o ≡ some s₁ → Empty (exec_all db todo s₁).1)
          → EmptyAfter (elim o [ none ↦ (false, s) | some s₁ ↦ exec_all db todo s₁ ])
      go none next = e
      go (some s₁) next = next s₁ refl

  pub create_tables-Empty :
      (tables : List String) (s : db.State) → Empty s → Empty (create_tables db tables s).1
  unfolding create_tables
  create_tables-Empty [] s e = e
  create_tables-Empty (table ∷ tables) s e =
      and_then-Empty (exec_all db (statements table) s) (create_tables db tables)
        (exec_all-Empty (statements table) s e) (create_tables-Empty tables)

  module _ (table : String) (cols : List String) (other : (table == events) ≡ false) where
    insert_rows-Empty :
        (rows : List Row) (s s₁ : db.State)
        → insert_rows db table cols rows s ≡ some s₁
        → Empty s
        → Empty s₁
    unfolding insert_rows
    insert_rows-Empty [] s s₁ ran e = subst Empty (some-injective s s₁ ran) e
    insert_rows-Empty (row ∷ rows) s s₁ ran e =
        go (db.insert_row table cols row s) refl (insert_rows-Empty rows) ran
      where
        go :
            (o : Option db.State)
            → db.insert_row table cols row s ≡ o
            → ((t t₁ : db.State) → insert_rows db table cols rows t ≡ some t₁ → Empty t → Empty t₁)
            → elim o [ none ↦ none | some t ↦ insert_rows db table cols rows t ] ≡ some s₁
            → Empty s₁
        go none is next ran = absurd (none-ne-some s₁ ran)
        go (some t) is next ran = next t s₁ ran (fk.insert_keeps table cols row s t other is e)

    insert_batch-Empty :
        (rows : List Row) (s : db.State) → Empty s → Empty (insert_batch db table cols rows s).1
    unfolding insert_batch
    insert_batch-Empty rows s e = go (insert_rows db table cols rows s) refl
      where
        go :
            (o : Option db.State)
            → insert_rows db table cols rows s ≡ o
            → EmptyAfter (elim o [ none ↦ (false, s) | some s₁ ↦ (true, s₁) ])
        go none is = e
        go (some s₁) is = insert_rows-Empty rows s s₁ is e

    copy_rows-Empty :
        (rows : List (Option Row)) (batch : List Row) (s : db.State)
        → Empty s
        → Empty (copy_rows db table cols rows batch s).1
    unfolding copy_rows
    copy_rows-Empty [] [] s e = e
    copy_rows-Empty [] (row ∷ batch) s e = insert_batch-Empty (row ∷ batch) s e
    copy_rows-Empty (none ∷ rows) batch s e = e
    copy_rows-Empty (some values ∷ rows) batch s e =
        go (leb batch_size (length (batch ++ values ∷ [])))
          (copy_rows-Empty rows (batch ++ values ∷ []) s e) (copy_rows-Empty rows [])
      where
        go :
            (b : Bool)
            → Empty (copy_rows db table cols rows (batch ++ values ∷ []) s).1
            → ((s₁ : db.State) → Empty s₁ → Empty (copy_rows db table cols rows [] s₁).1)
            → EmptyAfter (elim b [
              | true ↦
                  and_then db
                    (insert_batch db table cols (batch ++ values ∷ []) s)
                    (copy_rows db table cols rows [])
              | false ↦ copy_rows db table cols rows (batch ++ values ∷ []) s
            ])
        go true later fresh =
            and_then-Empty (insert_batch db table cols (batch ++ values ∷ []) s)
              (copy_rows db table cols rows []) (insert_batch-Empty (batch ++ values ∷ []) s e)
              fresh
        go false later fresh = later

  pub migrate_table-Empty :
      (source : Source) (table : String) (s : db.State)
      → (table == events) ≡ false
      → Empty s
      → Empty (migrate_table db source table s).1
  unfolding migrate_table
  migrate_table-Empty source table s other e =
      go (source.count table) (source.columns table) (source.rows table)
    where
      copied :
          (cols : Option (List String)) (rows : Option (List (Option Row)))
          → Empty (copy_table db table cols rows s).1
      copied none rows = e
      copied (some cols) none = e
      copied (some cols) (some rows) = copy_rows-Empty table cols other rows [] s e

      either :
          (b : Bool) (cols : Option (List String)) (rows : Option (List (Option Row)))
          → Empty (if b then (true, s) else copy_table db table cols rows s).1
      either true cols rows = e
      either false cols rows = copied cols rows

      go :
          (n : Option ℕ) (cols : Option (List String)) (rows : Option (List (Option Row)))
          → Empty (migrate_counted db source table n s).1
      go none cols rows = e
      go (some n) cols rows = either (n == 0) (source.columns table) (source.rows table)
