-- ===== src/Events/Replaced.antt =====
-- What `replaceEventOnce` leaves in the events table.
use unicity_relay.Prelude.{
  leb, Bool-cases, string_eq, nat_eq, ◌==◌, select, exists, every, contains, ℕ, ◌≡◌, refl, ap, ◌∙◌,
  inl, inr, Bool, true, false, not, ◌&&◌, ◌||◌, List, [], ◌∷◌, arith,
}
use unicity_relay.Nostr.{Event, Externals}
use unicity_relay.Events.Table.{Database, save_event_with, delete_event_with}
use unicity_relay.Events.Query.{query_events_with}
use unicity_relay.Events.Replace.{
  compare_previous, save_unless_newer, delete_all, replace_filter, replace_event_once,
}

-- A row with this id.
unfoldable pub holds : Database → ℕ → Bool
holds db id = exists (λ row. row.id == id) db.rows

rows-delete :
    (gone id : ℕ) (rows : List Event)
    → exists (λ (row : Event). row.id == id) (select (λ row. not (row.id == gone)) rows)
      ≡ (not (gone == id) && exists (λ (row : Event). row.id == id) rows)
unfolding exists select
rows-delete gone id [] = ground arith
rows-delete gone id (row ∷ rows) = ground (arith, rows-delete gone id rows)

pub holds-delete :
    (db : Database) (gone id : ℕ)
    → holds (delete_event_with db gone) id ≡ (not (gone == id) && holds db id)
unfolding holds delete_event_with
holds-delete db gone id = rows-delete gone id db.rows

holds-delete_all :
    (db : Database) (ids : List ℕ) (id : ℕ)
    → holds (delete_all db ids) id ≡ (not (contains ids id) && holds db id)
unfolding delete_all contains
holds-delete_all db [] id = ground arith
holds-delete_all db (gone ∷ ids) id =
    ground (arith, holds-delete_all (delete_event_with db gone) ids id, holds-delete db gone id)

same_id :
    (rows : List Event) (a b : ℕ)
    → a ≡ b
    → exists (λ (row : Event). row.id == a) rows ≡ exists (λ (row : Event). row.id == b) rows
same_id rows a b e = ap (λ (c : ℕ). exists (λ (row : Event). row.id == c) rows) e

holds-save :
    (db : Database) (save : Bool) (evt : Event) (id : ℕ)
    → holds (save_unless_newer save db evt) id ≡ (holds db id || (save && evt.id == id))
unfolding save_unless_newer holds exists
holds-save db false evt id = ground arith
holds-save db true evt id = elim (Bool-cases (exists (λ (row : Event). row.id == evt.id) db.rows)) [
  | inl old ↦ rw (old, save_event_with) (ground (arith, same_id db.rows evt.id id))
  | inr new ↦ rw (new, save_event_with) (ground arith)
]

-- The event is not newer than `evt`.
abbrev pub not_newer : Event → Event → Bool
not_newer evt previous = leb previous.created_at evt.created_at

compare_previous-save :
    (evt : Event) (rows : List Event) → (compare_previous evt rows).0 ≡ every (not_newer evt) rows
unfolding compare_previous every
compare_previous-save evt [] = refl
compare_previous-save evt (row ∷ rows) = ground (arith, compare_previous-save evt rows)

compare_previous-delete :
    (evt : Event) (rows : List Event) (id : ℕ)
    → contains (compare_previous evt rows).1 id
      ≡ exists (λ (row : Event). row.id == id && not_newer evt row) rows
unfolding compare_previous exists contains
compare_previous-delete evt [] id = refl
compare_previous-delete evt (row ∷ rows) id = ground (arith, compare_previous-delete evt rows id)

module _ ⦃x : Externals⦄ where
  -- The events that the new one competes with.
  abbrev pub previous : Database → Event → List Event
  previous db evt = query_events_with db (replace_filter evt) 0

  -- After a replacement the table has a row of an id exactly if it had one, or the new event has that
  -- id and none of its competitors is newer, and no competitor of that id is as old as the new event
  -- or older.
  pub replace_event_once-holds :
      (db : Database) (evt : Event) (id : ℕ)
      → holds (replace_event_once db evt) id ≡ (
          not (exists (λ (row : Event). row.id == id && not_newer evt row) (previous db evt))
          && (holds db id || (every (not_newer evt) (previous db evt) && evt.id == id)))
  unfolding replace_event_once
  replace_event_once-holds db evt id =
      let rows = previous db evt in
      let (save, gone) = compare_previous evt rows in
      holds-delete_all (save_unless_newer save db evt) gone id
      ∙ ground (
        arith,
        holds-save db save evt id,
        compare_previous-save evt rows,
        compare_previous-delete evt rows id,
      )

  -- A replaceable event that is stored again while its own row is among its competitors is deleted:
  -- no row of its id is left.
  replace_event_once-again :
      (db : Database) (evt : Event)
      → exists (λ (row : Event). row.id == evt.id && not_newer evt row) (previous db evt) ≡ true
      → holds (replace_event_once db evt) evt.id ≡ false
  replace_event_once-again db evt own = rw (replace_event_once-holds db evt evt.id, own)
