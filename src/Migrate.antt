-- ===== src/Migrate.antt =====
-- cmd/migrate/main.go: the copy of the tables of an SQLite file into PostgreSQL.
pub mod Rows
pub mod Counts
pub mod Unfilled
pub mod ForeignKey
use mathlib.Core.Option.{map as map_option}
use unicity_relay.Prelude.{
  leb, if◌then◌else◌, is_some, string_eq, nat_eq, ◌==◌, length, select, ℕ, String, Bool, true,
  false, Option, none, some, List, [], ◌∷◌, ◌++◌,
}

abbrev pub Row : Type 0
Row = List String

-- `strings.HasSuffix` and the text before the suffix.
unfoldable pub cut_suffix : String → String → Option String
cut_suffix suffix String.[] = if String.[] == suffix then some "" else none
cut_suffix suffix (String.◌∷◌ c s) =
    let rest = cut_suffix suffix s in
    if String.◌∷◌ c s == suffix then some "" else map_option (String.◌∷◌ c) rest

abbrev pub is_events : String → Bool
is_events table = is_some (cut_suffix "__events" table)

abbrev pub is_event_tags : String → Bool
is_event_tags table = is_some (cut_suffix "__event_tags" table)

-- What the tool reads: the names that the query on `sqlite_master` returns, in its order, the regular
-- expression on names, and for each table COUNT(*), the columns and the rows that the iteration
-- yields, `none` for an error. A row that cannot be scanned is `none`.
pub record Source : Type 0 where
  pub names : Option (List String)
  pub is_safe : String → Bool
  pub count : String → Option ℕ
  pub columns : String → Option (List String)
  pub rows : String → Option (List (Option Row))

-- The statements of `createSchema`, by what they create; the text is the name of the table or the
-- prefix.
pub data Statement : Type 0 where
  create_events create_index_created_at create_index_kind create_index_pubkey
        create_index_kind_pubkey create_index_kind_pubkey_created_at add_search_vector
        create_index_search create_search_function drop_search_trigger create_search_trigger
        create_event_tags create_index_event_id create_index_key create_index_key_value
        update_content :
      String → Statement
  create_kv : Statement

-- PostgreSQL: a statement, one INSERT … ON CONFLICT DO NOTHING, and COUNT(*); `none` is an error.
pub record Postgres : Type 1 where
  pub State : Type 0
  pub exec : Statement → State → Option State
  pub insert_row : String → List String → Row → State → Option State
  pub count_rows : String → State → Option ℕ

-- The tables that are migrated: those with an unsafe name are skipped.
unfoldable pub discover_tables : Source → Option (List String)
discover_tables source = map_option (select source.is_safe) source.names

-- The tables in the order of their creation; the loop over the three lists.
unfoldable pub sorted_tables : List String → List String → List String → List String → List String
sorted_tables [] sorted tag_tables other_tables = sorted ++ (tag_tables ++ other_tables)
sorted_tables (t ∷ tables) sorted tag_tables other_tables =
    if is_events t
    then sorted_tables tables (sorted ++ t ∷ []) tag_tables other_tables
    else if is_event_tags t
    then sorted_tables tables sorted (tag_tables ++ t ∷ []) other_tables
    else sorted_tables tables sorted tag_tables (other_tables ++ t ∷ [])

abbrev pub event_tags_statements : String → Option String → List Statement
event_tags_statements table none = if table == "kv" then create_kv ∷ [] else []
event_tags_statements table (some prefix) =
    create_event_tags table
    ∷ create_index_event_id prefix
    ∷ create_index_key prefix
    ∷ create_index_key_value prefix
    ∷ []

abbrev pub statements_of : String → Option String → List Statement
statements_of table none = event_tags_statements table (cut_suffix "__event_tags" table)
statements_of table (some prefix) =
    create_events table
    ∷ create_index_created_at prefix
    ∷ create_index_kind prefix
    ∷ create_index_pubkey prefix
    ∷ create_index_kind_pubkey prefix
    ∷ create_index_kind_pubkey_created_at prefix
    ∷ add_search_vector table
    ∷ create_index_search prefix
    ∷ create_search_function prefix
    ∷ drop_search_trigger prefix
    ∷ create_search_trigger prefix
    ∷ []

-- No statement for a table that is unknown.
unfoldable pub statements : String → List Statement
statements table = statements_of table (cut_suffix "__events" table)

-- Up to 500 rows go into one transaction.
abbrev pub batch_size : ℕ
batch_size = 500

-- The comparison of two counts, or an error of a query.
abbrev pub compare_counts : Option ℕ → Option ℕ → Option Bool
compare_counts none dst = none
compare_counts (some src) none = none
compare_counts (some src) (some dst) = some (src == dst)

module _ (db : Postgres) where
  -- The state afterwards, and whether no error has been returned.
  abbrev pub Answer : Type 0
  Answer = Bool × db.State

  unfoldable pub exec_all : List Statement → db.State → Answer
  exec_all [] s = (true, s)
  exec_all (statement ∷ rest) s = elim (db.exec statement s) [
    | none ↦ (false, s)
    | some s₁ ↦ exec_all rest s₁
  ]

  abbrev pub and_then : Answer → (db.State → Answer) → Answer
  and_then (true, s) f = f s
  and_then (false, s) f = (false, s)

  unfoldable pub create_tables : List String → db.State → Answer
  unfolding exec_all statements
  create_tables [] s = (true, s)
  create_tables (table ∷ tables) s = and_then (exec_all (statements table) s) (create_tables tables)

  unfoldable pub create_schema : List String → db.State → Answer
  unfolding create_tables sorted_tables
  create_schema tables s = create_tables (sorted_tables tables [] [] []) s

  -- The INSERTs of a transaction; it is rolled back by any error, also of BEGIN or COMMIT.
  unfoldable pub insert_rows : String → List String → List Row → db.State → Option db.State
  insert_rows table cols [] s = some s
  insert_rows table cols (row ∷ rows) s = elim (db.insert_row table cols row s) [
    | none ↦ none
    | some s₁ ↦ insert_rows table cols rows s₁
  ]

  unfoldable pub insert_batch : String → List String → List Row → db.State → Answer
  unfolding insert_rows
  insert_batch table cols rows s = elim (insert_rows table cols rows s) [
    | none ↦ (false, s)
    | some s₁ ↦ (true, s₁)
  ]

  abbrev pub final_batch : String → List String → List Row → db.State → Answer
  final_batch table cols [] s = (true, s)
  final_batch table cols (row ∷ batch) s = insert_batch table cols (row ∷ batch) s

  -- The loop over the rows; `batch` holds the rows that no transaction has taken yet.
  unfoldable pub copy_rows : String → List String → List (Option Row) → List Row → db.State → Answer
  unfolding insert_batch
  copy_rows table cols [] batch s = final_batch table cols batch s
  copy_rows table cols (none ∷ rows) batch s = (false, s)
  copy_rows table cols (some values ∷ rows) batch s =
      elim (leb batch_size (length (batch ++ values ∷ []))) [
        | true ↦
            and_then (insert_batch table cols (batch ++ values ∷ []) s)
              (copy_rows table cols rows [])
        | false ↦ copy_rows table cols rows (batch ++ values ∷ []) s
      ]

  abbrev pub copy_table :
      String → Option (List String) → Option (List (Option Row)) → db.State → Answer
  copy_table table none rows s = (false, s)
  copy_table table (some cols) none s = (false, s)
  copy_table table (some cols) (some rows) s = copy_rows table cols rows [] s

  abbrev pub migrate_counted : Source → String → Option ℕ → db.State → Answer
  migrate_counted source table none s = (false, s)
  migrate_counted source table (some n) s =
      if n == 0 then (true, s) else copy_table table (source.columns table) (source.rows table) s

  unfoldable pub migrate_table : Source → String → db.State → Answer
  unfolding copy_rows
  migrate_table source table s = migrate_counted source table (source.count table) s

  unfoldable pub migrate_tables : Source → List String → db.State → Answer
  unfolding migrate_table
  migrate_tables source [] s = (true, s)
  migrate_tables source (table ∷ tables) s =
      and_then (migrate_table source table s) (migrate_tables source tables)

  unfoldable pub backfill_search_vectors : List String → db.State → Answer
  backfill_search_vectors [] s = (true, s)
  backfill_search_vectors (table ∷ tables) s =
      if is_events table
      then elim (db.exec (update_content table) s) [
        | none ↦ (false, s)
        | some s₁ ↦ backfill_search_vectors tables s₁
      ]
      else backfill_search_vectors tables s

  -- The mismatches, or an error of a query.
  unfoldable pub mismatches : Source → List String → db.State → Option (List String)
  mismatches source [] s = some []
  mismatches source (table ∷ tables) s =
      elim (compare_counts (source.count table) (db.count_rows table s)) [
        | none ↦ none
        | some agree ↦ elim (mismatches source tables s) [
          | none ↦ none
          | some rest ↦ some (if agree then rest else table ∷ rest)
        ]
      ]

  unfoldable pub verify_counts : Source → List String → db.State → Bool
  unfolding mismatches
  verify_counts source tables s = elim (mismatches source tables s) [
    | none ↦ false
    | some [] ↦ true
    | some (table ∷ rest) ↦ false
  ]

  -- `main` behind the two connections; an error ends the process.
  abbrev pub run_with : Source → Option (List String) → db.State → Answer
  run_with source none s = (false, s)
  run_with source (some tables) s = and_then (create_schema tables s) (λ s₁.
      and_then (migrate_tables source tables s₁) (λ s₂.
        and_then (backfill_search_vectors tables s₂) (λ s₃. (verify_counts source tables s₃, s₃))))

  unfoldable pub migrate : Source → db.State → Answer
  unfolding discover_tables create_schema migrate_tables backfill_search_vectors verify_counts
  migrate source s = run_with source (discover_tables source) s
