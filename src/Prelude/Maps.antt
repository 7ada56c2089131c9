-- ===== src/Prelude/Maps.antt =====
-- Go's maps (and `sync.Map`) as association lists, with their laws in conditional form.
use mathlib.Core.Path.{◌≡◌, refl, sym, ap, ◌∙◌}
use mathlib.Core.Logic.{◌⊎◌, inl, inr}
use mathlib.Core.Bool.{false}
use mathlib.Core.Option.{Option, none, some, some-injective, none-ne-some}
use mathlib.Core.List.{List, [], ◌∷◌, map}
use native.Mathlib.Omega.{arith}
use unicity_relay.Prelude.Tests.{if◌then◌else◌, Bool-cases}
use unicity_relay.Prelude.Keys.{Eq, ◌==◌, ==_iff, ==_refl}

abbrev pub Map {ℓ κ} : Type ℓ → Type κ → Type (ℓ ⊔ κ)
Map K V = List (K × V)

module _ {ℓ κ} {K : Type ℓ} {V : Type κ} ⦃e : Eq K⦄ where
  -- `m.Load(wanted)`
  unfoldable pub lookup : Map K V → K → Option V
  lookup [] wanted = none
  lookup ((key, value) ∷ rest) wanted = if key == wanted then some value else lookup rest wanted

  -- `m.Store(key, value)`
  unfoldable pub insert : K → V → Map K V → Map K V
  insert key value [] = (key, value) ∷ []
  insert key value ((other, old) ∷ rest) =
      if other == key then (key, value) ∷ rest else (other, old) ∷ insert key value rest

  -- `m.Delete(key)`
  unfoldable pub delete : K → Map K V → Map K V
  delete key [] = []
  delete key ((other, value) ∷ m) =
      let rest = delete key m in if other == key then rest else (other, value) ∷ rest

  pub lookup-insert :
      (key wanted : K) (value : V) (m : Map K V)
      → lookup (insert key value m) wanted ≡ (if key == wanted then some value else lookup m wanted)
  unfolding lookup insert
  lookup-insert key wanted value [] = refl
  lookup-insert key wanted value ((other, old) ∷ rest) = ground (
    arith,
    lookup-insert key wanted value rest,
    e.beq_iff other key,
    e.beq_iff other wanted,
    e.beq_iff key wanted,
  )

  pub lookup-delete :
      (key wanted : K) (m : Map K V)
      → lookup (delete key m) wanted ≡ (if key == wanted then none else lookup m wanted)
  unfolding lookup delete
  lookup-delete key wanted [] = ground arith
  lookup-delete key wanted ((other, value) ∷ rest) = ground (
    arith,
    lookup-delete key wanted rest,
    e.beq_iff other key,
    e.beq_iff other wanted,
    e.beq_iff key wanted,
  )

module _ {ℓ κ} {K : Type ℓ} {V : Type κ} ⦃e : Eq K⦄ where
  pub lookup-insert_same : (k : K) (v : V) (m : Map K V) → lookup (insert k v m) k ≡ some v
  lookup-insert_same k v m =
      lookup-insert k k v m ∙ ap (λ b. if b then some v else lookup m k) (==_refl k)

  pub lookup-insert_other :
      (k w : K) (v : V) (m : Map K V) → (k == w) ≡ false → lookup (insert k v m) w ≡ lookup m w
  lookup-insert_other k w v m other =
      lookup-insert k w v m ∙ ap (λ b. if b then some v else lookup m w) other

  pub lookup-delete_other :
      (k w : K) (m : Map K V) → (k == w) ≡ false → lookup (delete k m) w ≡ lookup m w
  lookup-delete_other k w m other =
      lookup-delete k w m ∙ ap (λ b. if b then none else lookup m w) other

  pub lookup-delete_same : (k : K) (m : Map K V) → lookup (delete k m) k ≡ none
  lookup-delete_same k m =
      lookup-delete k k m ∙ ap (λ b. if b then none else lookup m k) (==_refl k)

  -- What is found after an insertion is new, or it was there.
  pub lookup-insert_cases :
      (k w : K) (v u : V) (m : Map K V)
      → lookup (insert k v m) w ≡ some u
      → ((k ≡ w) × (v ≡ u)) ⊎ (((k == w) ≡ false) × (lookup m w ≡ some u))
  lookup-insert_cases k w v u m found = elim (Bool-cases (k == w)) [
    | inl same ↦ inl (
      (==_iff k w).0 same,
      some-injective v u
          (sym (lookup-insert k w v m ∙ ap (λ b. if b then some v else lookup m w) same) ∙ found),
    )
    | inr other ↦ inr (other, sym (lookup-insert_other k w v m other) ∙ found)
  ]

  -- What is found after a deletion was there, under another key.
  pub lookup-delete_found :
      (k w : K) (u : V) (m : Map K V)
      → lookup (delete k m) w ≡ some u
      → ((k == w) ≡ false) × (lookup m w ≡ some u)
  lookup-delete_found k w u m found = elim (Bool-cases (k == w)) [
    | inl same ↦ absurd (
        none-ne-some u
          (sym (lookup-delete k w m ∙ ap (λ b. if b then none else lookup m w) same) ∙ found))
    | inr other ↦ (other, sym (lookup-delete_other k w m other) ∙ found)
  ]

-- The keys, in the order of the list; Go's iteration order is unspecified.
abbrev pub keys {ℓ κ} : {K : Type ℓ} {V : Type κ} → Map K V → List K
keys m = map (λ entry. entry.0) m

pub ruleset map_laws = (lookup-insert, lookup-delete)
