-- ===== src/Config/Retention/Bounds.antt =====
use native.Mathlib.Nat.{pow-suc, le-div_iff_mul-le}
-- The range of durations in zooid/config.go, and `HasRetention` against `GetRetention`.
use unicity_relay.Prelude.{
  ltb, nat_eq, string_eq, length, exists, Map, lookup, Result, ok, err, ℕ, zero, suc, ◌+◌, ◌-◌, ◌*◌,
  ◌/◌, ◌^◌, ◌%◌, ◌≤◌, ◌<◌, String, ◌≡◌, refl, ap, ◌∙◌, true, false, Option, none, some, List, [],
  ◌∷◌, ◌++◌, arith,
}
use unicity_relay.Config.{Config}
use unicity_relay.Config.Retention.{
  RetentionError, is_space, is_digit, trim_left, trim_right, trim_space, split_last, max_int64,
  parse_digits, parse_int, second, multiplier, with_unit, parse_trimmed, parse_retention_duration,
  positive, overrides, has_retention, duration, own_duration, get_retention,
}

-- A duration in the range of an int64, in whole seconds.
pub record IsDuration (d : ℕ) : Type 0 where
  pub fits : d ≤ max_int64
  pub whole : d % second ≡ 0

with_unit-IsDuration :
    (unit : ℕ) (value : Option ℕ) (d : ℕ) → with_unit unit value ≡ ok d → IsDuration d × (0 < d)
unfolding with_unit
with_unit-IsDuration unit none d h = cc
with_unit-IsDuration unit (some value) d h = ground arith

parse_trimmed-IsDuration : (s : List ℕ) (d : ℕ) → parse_trimmed s ≡ ok d → IsDuration d
unfolding parse_trimmed
parse_trimmed-IsDuration [] d h = ground arith
parse_trimmed-IsDuration (c ∷ []) d h = cc
parse_trimmed-IsDuration (c ∷ e ∷ s) d h =
    (with_unit-IsDuration (split_last c (e ∷ s)).1 (parse_int (split_last c (e ∷ s)).0) d h).0

-- Every text that is accepted gives a duration that an int64 holds, in whole seconds: the product
-- with the unit does not overflow.
pub parse_retention_duration-IsDuration :
    (s : List ℕ) (d : ℕ) → parse_retention_duration s ≡ ok d → IsDuration d
unfolding parse_retention_duration
parse_retention_duration-IsDuration s d h = parse_trimmed-IsDuration (trim_space s) d h

-- Digits, and their value.
abbrev pub AllDigits : List ℕ → Type 0
AllDigits [] = Unit {0}
AllDigits (c ∷ s) = (48 ≤ c) × (c ≤ 57) × AllDigits s

abbrev pub numeral : List ℕ → ℕ
numeral [] = 0
numeral (c ∷ s) = (c - 48) * 10 ^ length s + numeral s

parse_digits_lem :
    (n : ℕ) (s : List ℕ) → AllDigits s → parse_digits n s ≡ some (n * 10 ^ length s + numeral s)
unfolding parse_digits
parse_digits_lem n [] h = ground arith
parse_digits_lem n (c ∷ s) h =
    rw (digit, parse_digits_lem (n * 10 + (c - 48)) s h.2)
      (ap some (omega (arith, ap (λ (t : ℕ). n * t) (pow-suc 10 (length s)))))
  where
    digit : is_digit c ≡ true
    digit = ground arith

trim_right-append :
    (s : List ℕ) (u : ℕ) → is_space u ≡ false → trim_right (s ++ u ∷ []) ≡ s ++ u ∷ []
unfolding trim_right
trim_right-append [] u h = ground arith
trim_right-append (c ∷ []) u h = ground (arith, trim_right-append [] u h)
trim_right-append (c ∷ d ∷ s) u h = ground (arith, trim_right-append (d ∷ s) u h)

split_last-append : (c : ℕ) (s : List ℕ) (u : ℕ) → split_last c (s ++ u ∷ []) ≡ (c ∷ s, u)
unfolding split_last
split_last-append c [] u = refl
split_last-append c (d ∷ s) u = ground (arith, split_last-append d s u)

multiplier-pos : (u m : ℕ) → multiplier u ≡ some m → (0 < m) × (is_space u ≡ false)
unfolding multiplier is_space
multiplier-pos u m h = ground arith

-- No overflow: what the guard of the code lets through.
le-div : (v m top : ℕ) → 0 < m → v * m ≤ top → ltb (top / m) v ≡ false
le-div v m top p h = ground (arith, (le-div_iff_mul-le {k = m} {x = v} {y = top} p).1 h)

factor-le : (a m top : ℕ) → 0 < m → a * m ≤ top → a ≤ top
factor-le a zero top p h = absurd (omega arith)
factor-le a (suc m) top p h = grind arith

trim_space-numeral :
    (c : ℕ) (s : List ℕ) (u : ℕ)
    → is_digit c ≡ true
    → is_space u ≡ false
    → trim_space (c ∷ s ++ u ∷ []) ≡ c ∷ s ++ u ∷ []
unfolding trim_space is_digit is_space
trim_space-numeral c s u digit unit = rw (left) (trim_right-append (c ∷ s) u unit)
  where
    left : trim_left (c ∷ s ++ u ∷ []) ≡ c ∷ s ++ u ∷ []
    left = ground arith

parse_trimmed-append :
    (c : ℕ) (s : List ℕ) (u : ℕ) → parse_trimmed (c ∷ s ++ u ∷ []) ≡ with_unit u (parse_int (c ∷ s))
unfolding parse_trimmed
parse_trimmed-append c [] u = refl
parse_trimmed-append c (d ∷ s) u = rw (split_last-append d s u)

parse_int-numeral :
    (c : ℕ) (s : List ℕ)
    → AllDigits (c ∷ s)
    → numeral (c ∷ s) ≤ max_int64
    → parse_int (c ∷ s) ≡ some (numeral (c ∷ s))
unfolding parse_int
parse_int-numeral c s digits fits = ground (arith, parse_digits_lem 0 (c ∷ s) digits)

with_unit-ok :
    (u m v : ℕ)
    → multiplier u ≡ some m
    → 0 < m
    → 0 < v
    → v * m ≤ max_int64
    → with_unit u (some v) ≡ ok (v * m)
unfolding with_unit
with_unit-ok u m v unit p pos fits = rw unit (ground (arith, le-div v m max_int64 p fits))

-- Digits with a unit behind them are read as the number that they write, times the unit, whenever
-- the number is positive and the product fits an int64.
parse_retention_duration-numeral :
    (c : ℕ) (s : List ℕ) (u m : ℕ)
    → AllDigits (c ∷ s)
    → multiplier u ≡ some m
    → 0 < numeral (c ∷ s)
    → numeral (c ∷ s) * m ≤ max_int64
    → parse_retention_duration (c ∷ s ++ u ∷ []) ≡ ok (numeral (c ∷ s) * m)
unfolding parse_retention_duration
parse_retention_duration-numeral c s u m digits unit pos fits =
    let (m_pos, u_ink) = multiplier-pos u m unit in
    ap parse_trimmed (trim_space-numeral c s u digit u_ink)
    ∙ parse_trimmed-append c s u
    ∙ ap (with_unit u) (parse_int-numeral c s digits (small m_pos))
    ∙ with_unit-ok u m (numeral (c ∷ s)) unit m_pos pos fits
  where
    digit : is_digit c ≡ true
    digit = unfold is_digit in ground arith

    small : 0 < m → numeral (c ∷ s) ≤ max_int64
    small p = factor-le (numeral (c ∷ s)) m max_int64 p fits

positive-duration : (r : Result RetentionError ℕ) → positive r ≡ false → duration r ≡ 0
positive-duration (ok d) h = ground arith
positive-duration (err e) h = refl

own_duration-zero :
    (g : Map String (List ℕ)) (h : String)
    → exists (λ entry. positive (parse_retention_duration entry.1)) g ≡ false
    → own_duration (lookup g h) ≡ 0
unfolding lookup exists
own_duration-zero [] h e = refl
own_duration-zero (entry ∷ g) h e =
    ground (arith, own_duration-zero g h, positive-duration (parse_retention_duration entry.1))

-- Without an effective policy no group has a retention, so a cleaner that skips an instance by
-- `HasRetention` skips no group that `GetRetention` would limit.
has_retention-get_retention :
    (config : Config) (group : String)
    → has_retention config ≡ false
    → get_retention config group ≡ 0
unfolding has_retention get_retention
has_retention-get_retention config group h = ground (
  arith,
  own_duration-zero (overrides config.groups.retention) group,
  positive-duration (parse_retention_duration config.groups.retention.default),
)

duration-IsDuration : (s : List ℕ) → IsDuration (duration (parse_retention_duration s))
duration-IsDuration s = go (parse_retention_duration s) refl
  where
    go : (r : Result RetentionError ℕ) → parse_retention_duration s ≡ r → IsDuration (duration r)
    go (ok d) e = parse_retention_duration-IsDuration s d e
    go (err x) e = record { fits = omega arith; whole = omega arith }

own_duration-IsDuration : (o : Option (List ℕ)) → IsDuration (own_duration o)
own_duration-IsDuration none = record { fits = omega arith; whole = omega arith }
own_duration-IsDuration (some s) = duration-IsDuration s

-- The retention of a group is its own entry's where that is positive, and the default's otherwise,
-- also where its own text is not a duration; it is in range and in whole seconds either way.
get_retention_cases :
    (config : Config) (group : String)
    → let own = own_duration (lookup (overrides config.groups.retention) group) in
      let default = duration (parse_retention_duration config.groups.retention.default) in
      IsDuration (get_retention config group)
      × (0 < own → get_retention config group ≡ own)
      × (own ≡ 0 → get_retention config group ≡ default)
unfolding get_retention
get_retention_cases config group =
    let r = overrides config.groups.retention in
    (
      ground (
        arith,
        own_duration-IsDuration (lookup r group),
        duration-IsDuration config.groups.retention.default,
      ),
      ground arith,
      ground arith,
    )
