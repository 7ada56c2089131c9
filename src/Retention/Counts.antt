-- ===== src/Retention/Counts.antt =====
-- How many rows a DELETE by ids takes: the counts behind `RowsAffected` of zooid/retention.go.
use unicity_relay.Prelude.{
  if◌then◌else◌, Bool-cases, string_eq, nat_eq, ◌==◌, ==_iff, length, select, exists, contains, add,
  contains-add, ℕ, ◌+◌, ◌≤◌, ◌≡◌, refl, ap, ◌∙◌, inl, inr, Bool, true, false, not, ◌&&◌, ◌||◌, List,
  [], ◌∷◌, arith,
}
use unicity_relay.Retention.{Unique, distinct}

-- Disjoint tests count apart.
pub length-select_or {ℓ} :
    {A : Type ℓ} (p q : A → Bool) (xs : List A)
    → ((x : A) → (p x && q x) ≡ false)
    → length (select (λ x. p x || q x) xs) ≡ length (select p xs) + length (select q xs)
unfolding select
length-select_or p q [] apart = refl
length-select_or p q (x ∷ xs) apart = ground (arith, length-select_or p q xs apart, apart x)

-- A test and its negation count all.
pub length-select_split {ℓ} :
    {A : Type ℓ} (p : A → Bool) (xs : List A)
    → length (select p xs) + length (select (λ x. not (p x)) xs) ≡ length xs
unfolding select
length-select_split p [] = refl
length-select_split p (x ∷ xs) = ground (arith, length-select_split p xs)

length-select_some {ℓ} :
    {A : Type ℓ} (p : A → Bool) (xs : List A) → exists p xs ≡ true → 1 ≤ length (select p xs)
unfolding select exists
length-select_some p [] e = absurd cc
length-select_some p (x ∷ xs) e = ground (arith, length-select_some p xs)

pub select_ext {ℓ} :
    {A : Type ℓ} (p q : A → Bool) (xs : List A) → ((x : A) → p x ≡ q x) → select p xs ≡ select q xs
unfolding select
select_ext p q [] same = refl
select_ext p q (x ∷ xs) same =
    rw same (ap (λ rest. if q x then x ∷ rest else rest) (select_ext p q xs same))

other_id : (i j : ℕ) (ids : List ℕ) → contains ids i ≡ false → (j == i && contains ids j) ≡ false
other_id i j ids out = elim (Bool-cases (j == i)) [
  | inl same ↦ ground (arith, ap (λ k. contains ids k) ((==_iff j i).0 same))
  | inr other ↦ ground (arith, other)
]

-- Ids that differ and have a row each stand in at least as many rows.
pub length-Unique {ℓ} :
    {A : Type ℓ} (id : A → ℕ) (rows : List A) (ids : List ℕ)
    → Unique ids
    → ((i : ℕ) → contains ids i ≡ true → exists (λ row. id row == i) rows ≡ true)
    → length ids ≤ length (select (λ row. contains ids (id row)) rows)
unfolding contains
length-Unique id rows [] unique held = omega arith
length-Unique id rows (i ∷ ids) unique held =
    let one =
      length-select_some (λ row. id row == i) rows (held i (ground (arith, nat_eq.beq_iff i i))) in
    let rest = length-Unique id rows ids unique.1 (λ j found. held j (ground (arith, found))) in
    let parts =
      length-select_or (λ row. id row == i) (λ row. contains ids (id row)) rows
        (λ row. other_id i (id row) ids unique.0) in
    let same = ap length (
      select_ext (λ row. contains (i ∷ ids) (id row)) (λ row. id row == i || contains ids (id row))
        rows (λ row. ground arith)) in
    omega (arith, one, rest, parts, same)

pub contains-distinct : (ids : List ℕ) (i : ℕ) → contains (distinct ids) i ≡ contains ids i
unfolding distinct contains
contains-distinct [] i = refl
contains-distinct (j ∷ ids) i =
    contains-add j i (distinct ids) ∙ ap (λ b. j == i || b) (contains-distinct ids i)

pub distinct-Unique : (ids : List ℕ) → Unique (distinct ids)
unfolding distinct add
distinct-Unique [] = tt
distinct-Unique (j ∷ ids) = go (contains (distinct ids) j) refl (distinct-Unique ids)
  where
    go :
        (b : Bool)
        → contains (distinct ids) j ≡ b
        → Unique (distinct ids)
        → Unique (if b then distinct ids else j ∷ distinct ids)
    go true e unique = unique
    go false e unique = (e, unique)
