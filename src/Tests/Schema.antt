-- ===== src/Tests/Schema.antt =====
-- Migrations on a concrete schema.
use unicity_relay.Prelude.{string_eq, nat_eq, lookup, ◌≡◌, refl, true, false, some, [], ◌∷◌}
use unicity_relay.Schema.{KeyValueStore, get, set, exec, Entry, Texts, apply_file, run_migrations}
use unicity_relay.Schema.Applied.{Recorded, apply_file-Recorded}
use unicity_relay.Schema.Once.{run_migrations_again}

abbrev texts : Texts
texts = record {
  render = λ schema raw. raw;
  split_statements = λ text. text ∷ [];
  has_sql_suffix = λ name. true;
  sort_entries = λ entries. entries;
  migration_key = λ schema name. name;
}

abbrev index_file : Entry
index_file = record { name = "001.sql"; is_dir = false; raw = some "CREATE INDEX" }

abbrev empty_store : KeyValueStore
empty_store = record { kv = []; executed = []; plan = [] }

abbrev failing_store : KeyValueStore
failing_store = record empty_store { plan = false ∷ [] }

apply_file-Recorded_example :
    Recorded texts "demo" index_file "CREATE INDEX" failing_store
      (apply_file texts "demo" index_file (some "CREATE INDEX") failing_store)
apply_file-Recorded_example =
    apply_file-Recorded texts "demo" index_file "CREATE INDEX" failing_store

run_migrations_again_example :
    let first_run = (run_migrations texts "demo" (index_file ∷ []) empty_store).1 in
    let again =
      (run_migrations texts "demo" (index_file ∷ []) (record first_run { plan = [] })).1 in
    (again.executed ≡ first_run.executed) × (again.kv ≡ first_run.kv)
unfolding run_migrations get lookup exec set
run_migrations_again_example =
    run_migrations_again texts "demo" (index_file ∷ []) empty_store [] refl
