-- ===== src/Schema/Reads.antt =====
-- What the reads of zooid/kv.go return, and what they leave.
use unicity_relay.Prelude.{
  if◌then◌else◌, is_some, string_eq, nat_eq, lookup, String, ◌≡◌, refl, sym, ap, ◌∙◌, ◌⊎◌, inl, inr,
  Bool, true, false, Option, none, some, arith,
}
use unicity_relay.Schema.{KeyValueStore, Got, value, not_found, failed, next_call, row_got, get}
use unicity_relay.Schema.Applied.{SameTables, next_call-SameTables}

-- A key that is set stays so.
abbrev pub Grows : KeyValueStore → KeyValueStore → Type 0
Grows s t = (key : String) → is_some (lookup s.kv key) ≡ true → is_some (lookup t.kv key) ≡ true

pub get-SameTables : (key : String) (s : KeyValueStore) → SameTables s (get key s).1
unfolding get
get-SameTables key s = next_call-SameTables s

-- What a read returns has to do with the row.
get-cases :
    (key : String) (s : KeyValueStore)
    → ((get key s).0 ≡ failed) ⊎ ((get key s).0 ≡ row_got (lookup s.kv key))
unfolding get
get-cases key s = go (next_call s).0
  where
    go :
        (b : Bool)
        → ((if b then row_got (lookup (next_call s).1.kv key) else failed) ≡ failed)
          ⊎ ((if b then row_got (lookup (next_call s).1.kv key) else failed)
              ≡ row_got (lookup s.kv key))
    go true = inr (ap (λ m. row_got (lookup m key)) (next_call-SameTables s).same_kv)
    go false = inl refl

abbrev pub is_value : Got → Bool
is_value (value v) = true
is_value not_found = false
is_value failed = false

abbrev pub is_not_found : Got → Bool
is_not_found not_found = true
is_not_found failed = false
is_not_found (value v) = false

is_value-row_got : (o : Option String) → is_value (row_got o) ≡ is_some o
is_value-row_got none = refl
is_value-row_got (some v) = refl

is_not_found-row_got : (o : Option String) → is_some o ≡ true → is_not_found (row_got o) ≡ false
is_not_found-row_got none e = absurd cc
is_not_found-row_got (some v) e = refl

pub get-value :
    (key : String) (s : KeyValueStore)
    → is_value (get key s).0 ≡ true
    → is_some (lookup s.kv key) ≡ true
get-value key s h = elim (get-cases key s) [
  | inl bad ↦ absurd (ground (arith, h, ap is_value bad))
  | inr row ↦ sym (is_value-row_got (lookup s.kv key)) ∙ (sym (ap is_value row) ∙ h)
]

pub get-found :
    (key : String) (s : KeyValueStore)
    → is_some (lookup s.kv key) ≡ true
    → is_not_found (get key s).0 ≡ false
get-found key s h = elim (get-cases key s) [
  | inl bad ↦ ap is_not_found bad
  | inr row ↦ ap is_not_found row ∙ is_not_found-row_got (lookup s.kv key) h
]
