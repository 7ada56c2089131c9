-- ===== src/Events/Table.antt =====
-- The two tables of zooid/events.go and the statements that write them: `saveEventWith` and
-- `deleteEventWith`. A row of the events table is the event that its columns spell out.
use Prim.Native.String.{len}
use unicity_relay.Prelude.{
  leb, if◌then◌else◌, ◌==◌, nat_eq, string_eq, select, exists, ℕ, zero, suc, ◌+◌, String, true,
  false, not, Option, none, some, List, [], ◌∷◌, ◌++◌,
}
use unicity_relay.Nostr.{Tag, Event}

-- A row of the event_tags table. `kind` is NULL in rows older than the column.
pub record TagRow : Type 0 where
  pub event_id : ℕ
  pub key : String
  pub value : String
  pub kind : Option ℕ

pub record Database : Type 0 where
  pub rows : List Event
  pub tag_rows : List TagRow

-- At most 15000 rows, of four parameters each, go into one INSERT.
abbrev pub tag_insert_batch_size : ℕ
tag_insert_batch_size = 15000

-- The row of a tag: single-letter tags with a value have one.
unfoldable pub tag_row : Event → Tag → Option TagRow
tag_row evt (name ∷ value ∷ rest) =
    if len name == 1
    then some (record { event_id = evt.id; key = name; value = value; kind = some evt.kind })
    else none
tag_row evt (name ∷ []) = none
tag_row evt [] = none

-- The loop over the tags: `batch` holds the n rows that no INSERT has taken yet, and the result is
-- the batches that are inserted, in order.
unfoldable pub tag_batches : ℕ → Event → List Tag → List TagRow → ℕ → List (List TagRow)
tag_batches size evt [] batch zero = []
tag_batches size evt [] batch (suc n) = batch ∷ []
tag_batches size evt (tag ∷ tags) batch n = elim (tag_row evt tag) [
  | none ↦ tag_batches size evt tags batch n
  | some row ↦ elim (leb size (n + 1)) [
    | true ↦ (batch ++ row ∷ []) ∷ tag_batches size evt tags [] 0
    | false ↦ tag_batches size evt tags (batch ++ row ∷ []) (n + 1)
  ]
]

unfoldable pub concat {ℓ} : {A : Type ℓ} → List (List A) → List A
concat [] = []
concat (xs ∷ xss) = xs ++ concat xss

-- `none` is `ErrDupEvent`: the INSERT has met a row with the same id and written nothing.
unfoldable pub save_event_with : Database → Event → Option Database
unfolding tag_batches concat
save_event_with db evt =
    if exists (λ row. row.id == evt.id) db.rows
    then none
    else some (record db {
      rows = evt ∷ db.rows;
      tag_rows = concat (tag_batches tag_insert_batch_size evt evt.tags [] 0) ++ db.tag_rows;
    })

-- DELETE, with ON DELETE CASCADE for the tags.
unfoldable pub delete_event_with : Database → ℕ → Database
delete_event_with db id = record db {
  rows = select (λ row. not (row.id == id)) db.rows;
  tag_rows = select (λ row. not (row.event_id == id)) db.tag_rows;
}
