-- ===== src/Events/Batches.antt =====
-- The INSERT batches of `saveEventWith`, against the tags and PostgreSQL's limit of parameters.
use mathlib.Core.List.{append_assoc}
use unicity_relay.Prelude.{
  leb, Bool-cases, Option-cases, nat_eq, string_eq, length, length-append, ℕ, zero, suc, ◌+◌, ◌*◌,
  ◌≤◌, ◌<◌, ◌≡◌, refl, inl, inr, none, some, List, [], ◌∷◌, ◌++◌, arith,
}
use unicity_relay.Nostr.{Tag, Event}
use unicity_relay.Events.Table.{TagRow, tag_insert_batch_size, tag_row, tag_batches, concat}

-- The rows of all tags that have one.
unfoldable pub all_tag_rows : Event → List Tag → List TagRow
all_tag_rows evt [] = []
all_tag_rows evt (tag ∷ tags) = elim (tag_row evt tag) [
  | none ↦ all_tag_rows evt tags
  | some row ↦ row ∷ all_tag_rows evt tags
]

-- A batch that PostgreSQL takes: not empty, and within its limit of 65535 parameters, four a row.
abbrev pub Fits : List TagRow → Type 0
Fits batch = (0 < length batch) × (4 * length batch ≤ 65535)

abbrev pub AllFit : List (List TagRow) → Type 0
AllFit [] = Unit {0}
AllFit (batch ∷ batches) = Fits batch × AllFit batches

concat-tag_batches :
    (size : ℕ) (evt : Event) (tags : List Tag) (batch : List TagRow) (n : ℕ)
    → n ≡ length batch
    → concat (tag_batches size evt tags batch n) ≡ batch ++ all_tag_rows evt tags
unfolding tag_batches concat all_tag_rows
concat-tag_batches size evt [] [] zero e = refl
concat-tag_batches size evt [] (r ∷ batch) zero e = absurd (omega arith)
concat-tag_batches size evt [] batch (suc n) e = refl
concat-tag_batches size evt (tag ∷ tags) batch n e = elim (Option-cases (tag_row evt tag)) [
  | inl skipped ↦
      rw (skipped, tag_batches, all_tag_rows) (concat-tag_batches size evt tags batch n e)
  | inr (row, taken) ↦
      rw (taken, tag_batches, all_tag_rows)
        (elim (Bool-cases (leb size (n + 1))) [
          | inl full ↦
              rw (full, concat-tag_batches size evt tags [] 0 refl)
                (append_assoc batch (row ∷ []) (all_tag_rows evt tags))
          | inr room ↦
              rw (room, concat-tag_batches size evt tags (batch ++ row ∷ []) (n + 1) (longer row))
                (append_assoc batch (row ∷ []) (all_tag_rows evt tags))
        ])
]
  where
    longer : (row : TagRow) → n + 1 ≡ length (batch ++ row ∷ [])
    longer row = omega (arith, length-append batch (row ∷ []))

tag_batches-AllFit :
    (evt : Event) (tags : List Tag) (batch : List TagRow) (n : ℕ)
    → n ≡ length batch
    → n < tag_insert_batch_size
    → AllFit (tag_batches tag_insert_batch_size evt tags batch n)
unfolding tag_batches
tag_batches-AllFit evt [] batch zero e h = tt
tag_batches-AllFit evt [] batch (suc n) e h = ((omega arith, omega arith), tt)
tag_batches-AllFit evt (tag ∷ tags) batch n e h = elim (Option-cases (tag_row evt tag)) [
  | inl skipped ↦ rw (skipped, tag_batches) (tag_batches-AllFit evt tags batch n e h)
  | inr (row, taken) ↦
      rw (taken, tag_batches)
        (elim (Bool-cases (leb tag_insert_batch_size (n + 1))) [
          | inl full ↦ rw full (
            (omega (arith, longer row), omega (arith, longer row)),
            tag_batches-AllFit evt tags [] 0 refl (omega arith),
          )
          | inr room ↦
              rw room (
                tag_batches-AllFit evt tags (batch ++ row ∷ []) (n + 1) (longer row) (ground arith))
        ])
]
  where
    longer : (row : TagRow) → n + 1 ≡ length (batch ++ row ∷ [])
    longer row = omega (arith, length-append batch (row ∷ []))

-- For every list of tags, the batches together are the rows of the single-letter tags with a value,
-- in order, and each is within PostgreSQL's limit of parameters and not empty.
pub tag_batches_complete :
    (evt : Event)
    → (concat (tag_batches tag_insert_batch_size evt evt.tags [] 0) ≡ all_tag_rows evt evt.tags)
      × AllFit (tag_batches tag_insert_batch_size evt evt.tags [] 0)
tag_batches_complete evt = (
  concat-tag_batches tag_insert_batch_size evt evt.tags [] 0 refl,
  tag_batches-AllFit evt evt.tags [] 0 refl (omega arith),
)
