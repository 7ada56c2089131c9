-- ===== src/Events/Backoff.antt =====
use native.Mathlib.Nat.{pow-suc, div-mul-le_self, mul-le-mul_right}
-- The bound of the backoff of `ReplaceEvent` in zooid/events.go.
use unicity_relay.Prelude.{
  ltb, if◌then◌else◌, Bool-cases, string_eq, nat_eq, ℕ, zero, suc, ◌+◌, ◌*◌, ◌/◌, ◌^◌, ◌≤◌, ◌<◌,
  inl, inr, arith,
}
use unicity_relay.Events.Store.{max_int, backoff_cap}

abbrev scaled : ℕ → ℕ → ℕ
scaled base m = (if ltb (max_int / m) base then max_int / m else base) * m

scaled-le : (base m : ℕ) → scaled base m ≤ max_int
scaled-le base m = elim (Bool-cases (ltb (max_int / m) base)) [
  | inl above ↦ rw above (div-mul-le_self max_int m)
  | inr below ↦ rw below (
      omega (
        arith,
        mul-le-mul_right {m = base} {n = max_int / m} m (ground arith),
        div-mul-le_self max_int m,
      ))
]

-- The greatest int is odd.
scaled-twice-lt : (base m : ℕ) → scaled base (m * 2) < max_int
scaled-twice-lt base m = omega (arith, scaled-le base (m * 2))

scaled-pow :
    (base shift : ℕ)
    → (scaled base (2 ^ shift) ≤ max_int) × (base < max_int → scaled base (2 ^ shift) + 1 ≤ max_int)
scaled-pow base zero = (scaled-le base 1, λ h. ground arith)
scaled-pow base (suc k) = (
  scaled-le base (2 ^ suc k),
  λ h. rw (pow-suc 2 k) (omega (arith, scaled-twice-lt base (2 ^ k))),
)

-- The backoff bound is an int, and so is the argument of `rand.IntN`, one more, unless the base is
-- the greatest int.
pub backoff_cap-fits :
    (base attempt : ℕ)
    → (backoff_cap base attempt ≤ max_int)
      × (base < max_int → backoff_cap base attempt + 1 ≤ max_int)
unfolding backoff_cap
backoff_cap-fits base attempt = scaled-pow base (if ltb 10 attempt then 10 else attempt)
