-- ===== src/Migrate/ForeignKey.antt =====
-- The order in which cmd/migrate/main.go copies the tables, and the foreign key between them.
use unicity_relay.Prelude.{
  leb, if◌then◌else◌, string_eq, nat_eq, ◌==◌, length, contains, ℕ, String, ◌≡◌, refl, sym, ap,
  subst, Bool, true, false, Option, none, some, List, [], ◌∷◌, ◌++◌, arith,
}
use unicity_relay.Migrate.{
  Row, Source, Postgres, discover_tables, sorted_tables, batch_size, Answer, and_then,
  create_schema, insert_rows, insert_batch, copy_rows, copy_table, migrate_counted, migrate_table,
  migrate_tables, backfill_search_vectors, verify_counts, run_with, migrate,
}
use unicity_relay.Migrate.Unfilled.{
  References, Empty, Fails, create_tables-Empty, migrate_table-Empty,
}

module _ (db : Postgres) (event_tags events : String) (fk : References db event_tags events) where
  -- A batch of tags is refused.
  insert_batch-refused :
      (cols : List String) (row : Row) (rows : List Row) (s : db.State)
      → Empty db event_tags events fk s
      → insert_batch db event_tags cols (row ∷ rows) s ≡ (false, s)
  unfolding insert_batch insert_rows
  insert_batch-refused cols row rows s e = ap after_row (fk.refuses cols row s e)
    where
      after_row : Option db.State → Answer db
      after_row o = elim (first_row o) [ none ↦ (false, s) | some s₁ ↦ (true, s₁) ]
        where
          first_row : Option db.State → Option db.State
          first_row none = none
          first_row (some s₁) = insert_rows db event_tags cols rows s₁

  copy_rows-refused :
      (cols : List String) (rows : List (Option Row)) (row : Row) (batch : List Row) (s : db.State)
      → Empty db event_tags events fk s
      → (copy_rows db event_tags cols rows (row ∷ batch) s).0 ≡ false
  unfolding copy_rows
  copy_rows-refused cols [] row batch s e =
      ap (λ (a : Answer db). a.0) (insert_batch-refused cols row batch s e)
  copy_rows-refused cols (none ∷ rows) row batch s e = refl
  copy_rows-refused cols (some values ∷ rows) row batch s e =
      go (leb batch_size (length (row ∷ (batch ++ values ∷ []))))
        (copy_rows-refused cols rows row (batch ++ values ∷ []) s e)
    where
      go :
          (b : Bool)
          → (copy_rows db event_tags cols rows (row ∷ (batch ++ values ∷ [])) s).0 ≡ false
          → Fails db event_tags events fk (elim b [
            | true ↦
                and_then db
                  (insert_batch db event_tags cols (row ∷ (batch ++ values ∷ [])) s)
                  (copy_rows db event_tags cols rows [])
            | false ↦ copy_rows db event_tags cols rows (row ∷ (batch ++ values ∷ [])) s
          ])
      go true later =
          ap (λ (a : Answer db). (and_then db a (copy_rows db event_tags cols rows [])).0)
            (insert_batch-refused cols row (batch ++ values ∷ []) s e)
      go false later = later

  and_then-Fails :
      (a : Answer db) (f : db.State → Answer db)
      → Empty db event_tags events fk a.1
      → ((s : db.State) → Empty db event_tags events fk s → Fails db event_tags events fk (f s))
      → Fails db event_tags events fk (and_then db a f)
  and_then-Fails (true, s) f e next = next s e
  and_then-Fails (false, s) f e next = refl

  migrate_tables-Fails :
      (source : Source) (before after : List String) (s : db.State)
      → contains before events ≡ false
      → ((t : db.State)
          → Empty db event_tags events fk t
          → Fails db event_tags events fk (migrate_table db source event_tags t))
      → Empty db event_tags events fk s
      → Fails db event_tags events fk (migrate_tables db source (before ++ event_tags ∷ after) s)
  unfolding migrate_tables contains
  migrate_tables-Fails source [] after s out fails e =
      go (migrate_table db source event_tags s) (fails s e)
    where
      go :
          (a : Answer db)
          → Fails db event_tags events fk a
          → Fails db event_tags events fk (and_then db a (migrate_tables db source after))
      go (true, t) bad = absurd cc
      go (false, t) bad = refl
  migrate_tables-Fails source (table ∷ before) after s out fails e =
      and_then-Fails (migrate_table db source table s)
        (migrate_tables db source (before ++ event_tags ∷ after))
        (migrate_table-Empty db event_tags events fk source table s (ground arith) e)
        (λ t. migrate_tables-Fails source before after t (ground arith) fails)

  migrate_table-Fails :
      (source : Source) (n : ℕ) (cols : List String) (row : Row) (rows : List (Option Row))
      (s : db.State)
      → source.count event_tags ≡ some n
      → (n == 0) ≡ false
      → source.columns event_tags ≡ some cols
      → source.rows event_tags ≡ some (some row ∷ rows)
      → Empty db event_tags events fk s
      → Fails db event_tags events fk (migrate_table db source event_tags s)
  unfolding migrate_table copy_rows
  migrate_table-Fails source n cols row rows s counted some_rows columns read e =
      subst
        (λ (o : Option ℕ). Fails db event_tags events fk (migrate_counted db source event_tags o s))
        (sym counted)
        (subst
          (λ (b : Bool). Fails db event_tags events fk (
            if b
            then (true, s)
            else copy_table db event_tags (source.columns event_tags) (source.rows event_tags) s))
          (sym some_rows)
          (subst
            (λ (o : Option (List String)).
              Fails db event_tags events fk (copy_table db event_tags o (source.rows event_tags) s))
            (sym columns)
            (subst
              (λ (o : Option (List (Option Row))).
                Fails db event_tags events fk (copy_table db event_tags (some cols) o s))
              (sym read) (copy_rows-refused cols rows row [] s e))))

  -- A tags table comes before its events table in the order in which the tables are found, and it has
  -- rows. Then the tool fails on a destination whose events table is empty: it creates the tables in
  -- the order that the foreign key needs, but it copies the rows in the order of the names.
  pub migrate_fails :
      (source : Source) (before after : List String) (n : ℕ) (cols : List String) (row : Row)
      (rows : List (Option Row)) (s : db.State)
      → discover_tables source ≡ some (before ++ event_tags ∷ after)
      → contains before events ≡ false
      → source.count event_tags ≡ some n
      → (n == 0) ≡ false
      → source.columns event_tags ≡ some cols
      → source.rows event_tags ≡ some (some row ∷ rows)
      → db.count_rows events s ≡ some 0
      → (migrate db source s).0 ≡ false
  unfolding migrate create_schema
  migrate_fails source before after n cols row rows s found out counted some_rows columns read e =
      let tables = before ++ event_tags ∷ after in
      subst (λ (o : Option (List String)). Fails db event_tags events fk (run_with db source o s))
        (sym found)
        (and_then-Fails (create_schema db tables s)
          (λ s₁. and_then db (migrate_tables db source tables s₁) (λ s₂.
            and_then db (backfill_search_vectors db tables s₂)
              (λ s₃. (verify_counts db source tables s₃, s₃))))
          (create_tables-Empty db event_tags events fk (sorted_tables tables [] [] []) s e)
          (λ s₁ e₁.
            stops (migrate_tables db source tables s₁)
              (λ s₂.
                and_then db (backfill_search_vectors db tables s₂)
                  (λ s₃. (verify_counts db source tables s₃, s₃)))
              (migrate_tables-Fails source before after s₁ out
                (λ t. migrate_table-Fails source n cols row rows t counted some_rows columns read)
                e₁)))
    where
      stops :
          (a : Answer db) (f : db.State → Answer db)
          → Fails db event_tags events fk a
          → Fails db event_tags events fk (and_then db a f)
      stops (true, t) f bad = absurd cc
      stops (false, t) f bad = refl
