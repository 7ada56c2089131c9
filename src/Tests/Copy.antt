-- ===== src/Tests/Copy.antt =====
-- The copy of a small relay, into a database that checks the foreign key.
use mathlib.Core.Option.{some-injective, none-ne-some}
use unicity_relay.Prelude.{
  if◌then◌else◌, or_else, string_eq, nat_eq, ◌==◌, length, get_elem?, select, every, contains, ℕ,
  String, ◌≡◌, refl, sym, ap, ◌∙◌, Bool, true, false, not, ◌&&◌, Option, none, some, List, [], ◌∷◌,
  arith,
}
use unicity_relay.Migrate.{
  Row, cut_suffix, Source, Postgres, discover_tables, insert_rows, copy_rows, migrate,
}
use unicity_relay.Migrate.Rows.{Agrees, copy_rows-inserts}
use unicity_relay.Migrate.Counts.{agrees, migrate-verified}
use unicity_relay.Migrate.ForeignKey.{migrate_fails}
use unicity_relay.Migrate.Unfilled.{References}

-- The ids of the events, and the rows of all other tables together.
abbrev State : Type 0
State = List String × List Row

abbrev id_of : Row → String
id_of row = or_else "" (get_elem? row 0)

abbrev insert_into : String → Row → State → Option State
insert_into table row s =
    if table == "a__events"
    then some (id_of row ∷ s.0, s.1)
    else if table == "a__event_tags" && not (contains s.0 (id_of row))
    then none
    else some (s.0, row ∷ s.1)

abbrev postgres : Postgres
postgres = record {
  State = State;
  exec = λ statement s. some s;
  insert_row = λ table cols row s. insert_into table row s;
  count_rows = λ table s. some (if table == "a__events" then length s.0 else length s.1);
}

abbrev empty_state : State
empty_state = ([], [])

abbrev row : Row
row = "1" ∷ "h" ∷ "g" ∷ []

abbrev columns : List String
columns = "event_id" ∷ "key" ∷ "value" ∷ []

-- The tables in the order of their names.
abbrev source : Source
source = record {
  names = some ("a__event_tags" ∷ "a__events" ∷ []);
  is_safe = λ name. true;
  count = λ table. some 1;
  columns = λ table. some columns;
  rows = λ table. some (some row ∷ []);
}

-- The events alone.
abbrev events_only : Source
events_only = record source { names = some ("a__events" ∷ []) }

copy_rows-inserts_example :
    Agrees postgres "a__event_tags" columns
      (row ∷ [])
      empty_state
      (insert_rows postgres "a__event_tags" columns (row ∷ []) empty_state)
      (copy_rows postgres "a__event_tags" columns (some row ∷ []) [] empty_state)
copy_rows-inserts_example =
    copy_rows-inserts postgres "a__event_tags" columns (row ∷ []) empty_state

migrate-verified_example :
    (tables : List String) × (discover_tables events_only ≡ some tables)
    × (every (agrees postgres events_only (migrate postgres events_only empty_state).1) tables
        ≡ true)
unfolding migrate select cut_suffix
migrate-verified_example = migrate-verified postgres events_only empty_state refl

-- An INSERT into another table leaves the events.
insert_into-events :
    (row : Row) (s s₁ : State) (b c : Bool)
    → b ≡ false
    → (if b then some (id_of row ∷ s.0, s.1) else if c then none else some (s.0, row ∷ s.1))
      ≡ some s₁
    → s₁.0 ≡ s.0
insert_into-events row s s₁ true c other ran = absurd cc
insert_into-events row s s₁ false true other ran = absurd (none-ne-some s₁ ran)
insert_into-events row s s₁ false false other ran =
    sym (ap (λ (t : State). t.0) (some-injective (s.0, row ∷ s.1) s₁ ran))

insert_into-refused :
    (row : Row) (ids : List String) (others : List Row)
    → ◌≡◌ {A = Option ℕ} (some (length ids)) (some 0)
    → ◌≡◌ {A = Option State}
        (if not (contains ids (id_of row)) then none else some (ids, row ∷ others))
        none
unfolding contains
insert_into-refused row [] others e = refl
insert_into-refused row (i ∷ ids) others e =
    absurd (omega (arith, some-injective (length (i ∷ ids)) 0 e))

foreign_key : References postgres "a__event_tags" "a__events"
foreign_key = record {
  exec_keeps = λ statement s s₁ ran e.
      ap (λ (t : State). some (length t.0)) (sym (some-injective s s₁ ran)) ∙ e;
  insert_keeps = λ table cols row s s₁ other ran e.
      ap (λ (ids : List String). some (length ids))
        (insert_into-events row s s₁ (table == "a__events")
          (table == "a__event_tags" && not (contains s.0 (id_of row))) other ran)
      ∙ e;
  refuses = λ cols row s e. insert_into-refused row s.0 s.1 e;
}

migrate_fails_example : (migrate postgres source empty_state).0 ≡ false
unfolding discover_tables select contains
migrate_fails_example =
    migrate_fails postgres "a__event_tags" "a__events" foreign_key source [] ("a__events" ∷ []) 1
      columns row [] empty_state refl refl refl refl refl refl refl
