-- ===== src/Schema.antt =====
-- The key-value table of zooid/kv.go, and the migrations of zooid/migrate.go that it keeps track of.
pub mod Applied
pub mod Reads
pub mod Once
use unicity_relay.Prelude.{
  if◌then◌else◌, string_eq, nat_eq, Map, lookup, insert, String, Bool, true, not, ◌||◌, Option,
  none, some, List, [], ◌∷◌, ◌++◌,
}

-- The database: the table kv, the other statements that it has executed, the newest last, and whether
-- each call to come succeeds; calls succeed when the list is used up.
pub record KeyValueStore : Type 0 where
  pub kv : Map String String
  pub executed : List String
  pub plan : List Bool

-- A read has a value, no row (`ErrKVNotFound`), or fails with another error.
pub data Got : Type 0 where
  value : String → Got
  not_found failed : Got

unfoldable pub next_of : List Bool → KeyValueStore → Bool × KeyValueStore
next_of [] s = (true, s)
next_of (answer ∷ plan) s = (answer, record s { plan = plan })

unfoldable pub next_call : KeyValueStore → Bool × KeyValueStore
unfolding next_of
next_call s = next_of s.plan s

abbrev pub row_got : Option String → Got
row_got none = not_found
row_got (some v) = value v

unfoldable pub get : String → KeyValueStore → Got × KeyValueStore
unfolding next_call
get key s =
    let (succeeds, s₁) = next_call s in
    (if succeeds then row_got (lookup s₁.kv key) else failed, s₁)

-- INSERT … ON CONFLICT DO UPDATE; the result is whether there is no error.
unfoldable pub set : String → String → KeyValueStore → Bool × KeyValueStore
unfolding next_call
set key v s =
    let (succeeds, s₁) = next_call s in
    (succeeds, if succeeds then record s₁ { kv = insert key v s₁.kv } else s₁)

unfoldable pub exec : String → KeyValueStore → Bool × KeyValueStore
unfolding next_call
exec statement s =
    let (succeeds, s₁) = next_call s in
    (succeeds, if succeeds then record s₁ { executed = s₁.executed ++ statement ∷ [] } else s₁)

-- An entry of the embedded directory; ReadFile finds `raw`.
pub record Entry : Type 0 where
  pub name : String
  pub is_dir : Bool
  pub raw : Option String

-- The standard library on texts: `Schema.Render` by text/template, the statements between semicolons
-- that are not blank, the file suffix, the entries in the order of their names, and `fmt.Sprintf` of
-- the key of a schema and a file.
pub record Texts : Type 0 where
  pub render : String → String → String
  pub split_statements : String → List String
  pub has_sql_suffix : String → Bool
  pub sort_entries : List Entry → List Entry
  pub migration_key : String → String → String

pub data MigrationError : Type 0 where
  checking_failed reading_failed migration_failed recording_failed : MigrationError

-- The error, if there is one, and the database afterwards.
abbrev pub Migrated : Type 0
Migrated = Option MigrationError × KeyValueStore

-- The loop over the statements of a file.
unfoldable pub exec_statements : List String → KeyValueStore → Migrated
exec_statements [] s = (none, s)
exec_statements (statement ∷ rest) s =
    let (succeeds, s₁) = exec statement s in
    let after = exec_statements rest s₁ in if succeeds then after else (some migration_failed, s₁)

abbrev pub and_record : String → Migrated → Migrated
and_record key (some e, s) = (some e, s)
and_record key (none, s) =
    let (succeeds, s₁) = set key "applied" s in
    ((if succeeds then none else some recording_failed), s₁)

module _ (texts : Texts) (schema : String) where
  abbrev pub key_of : Entry → String
  key_of entry = texts.migration_key schema entry.name

  abbrev pub apply_file : Entry → Option String → KeyValueStore → Migrated
  apply_file entry none s = (some reading_failed, s)
  apply_file entry (some raw) s =
      and_record (key_of entry)
        (exec_statements (texts.split_statements (texts.render schema raw)) s)

  abbrev pub after_check : Entry → Got × KeyValueStore → Migrated
  after_check entry (value v, s) = (none, s)
  after_check entry (failed, s) = (some checking_failed, s)
  after_check entry (not_found, s) = apply_file entry entry.raw s

  abbrev pub is_migration : Entry → Bool
  is_migration entry = not (entry.is_dir || not (texts.has_sql_suffix entry.name))

  unfoldable pub run_entry : Entry → KeyValueStore → Migrated
  unfolding exec_statements
  run_entry entry s =
      if not (is_migration entry) then (none, s) else after_check entry (get (key_of entry) s)

  abbrev pub and_run : Migrated → (KeyValueStore → Migrated) → Migrated
  and_run (some e, s) f = (some e, s)
  and_run (none, s) f = f s

  unfoldable pub run_entries : List Entry → KeyValueStore → Migrated
  unfolding run_entry
  run_entries [] s = (none, s)
  run_entries (entry ∷ entries) s = and_run (run_entry entry s) (run_entries entries)

  unfoldable pub run_migrations : List Entry → KeyValueStore → Migrated
  unfolding run_entries
  run_migrations entries s = run_entries (texts.sort_entries entries) s
