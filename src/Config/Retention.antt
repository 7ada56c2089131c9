-- ===== src/Config/Retention.antt =====
-- zooid/config.go: `ParseRetentionDuration`, `validateRetention`, `HasRetention`, `GetRetention`.
-- Texts are ASCII bytes; a `time.Duration` is a number of nanoseconds. `TrimSpace` and `ParseInt` are
-- those of Go's standard library.
pub mod Bounds
use unicity_relay.Prelude.{
  ltb, leb, if◌then◌else◌, or_else, ◌==◌, nat_eq, string_eq, exists, every, Map, lookup, Result, ok,
  err, ℕ, ◌+◌, ◌-◌, ◌*◌, ◌/◌, ◌^◌, String, Bool, true, false, ◌&&◌, ◌||◌, Option, none, some, List,
  [], ◌∷◌,
}
use unicity_relay.Config.{RetentionConfig, Config}

pub data RetentionError : Type 0 where
  invalid not_positive bad_unit too_large : RetentionError

unfoldable pub is_space : ℕ → Bool
is_space c = (leb 9 c && leb c 13) || c == 32

unfoldable pub is_digit : ℕ → Bool
is_digit c = leb 48 c && leb c 57

-- What follows the leading white space.
unfoldable pub trim_left : List ℕ → List ℕ
unfolding is_space
trim_left [] = []
trim_left (c ∷ s) = let rest = trim_left s in if is_space c then rest else c ∷ s

-- A byte before what is left of the bytes behind it.
unfoldable pub keep_byte : ℕ → List ℕ → List ℕ
unfolding is_space
keep_byte c [] = if is_space c then [] else c ∷ []
keep_byte c (d ∷ r) = c ∷ d ∷ r

-- What stands before the trailing white space.
unfoldable pub trim_right : List ℕ → List ℕ
unfolding keep_byte
trim_right [] = []
trim_right (c ∷ s) = keep_byte c (trim_right s)

unfoldable pub trim_space : List ℕ → List ℕ
unfolding trim_left trim_right
trim_space s = trim_right (trim_left s)

-- `s[:len(s)-1]` and `s[len(s)-1]` of the text `c ∷ s`.
unfoldable pub split_last : ℕ → List ℕ → List ℕ × ℕ
split_last c [] = ([], c)
split_last c (d ∷ s) = let (front, last) = split_last d s in (c ∷ front, last)

abbrev pub max_int64 : ℕ
max_int64 = 2 ^ 63 - 1

-- The loop of `ParseInt` over the digits.
unfoldable pub parse_digits : ℕ → List ℕ → Option ℕ
unfolding is_digit
parse_digits n [] = some n
parse_digits n (c ∷ s) =
    let rest = parse_digits (n * 10 + (c - 48)) s in if is_digit c then rest else none

-- A positive result of `ParseInt(s, 10, 64)`, `some 0` for a result that is not positive.
unfoldable pub parse_unsigned : List ℕ → Option ℕ
unfolding parse_digits
parse_unsigned [] = none
parse_unsigned (c ∷ s) = parse_digits 0 (c ∷ s)

abbrev in_range : ℕ → Option ℕ → Option ℕ
in_range top none = none
in_range top (some n) = if leb n top then some n else none

abbrev negated : Option ℕ → Option ℕ
negated none = none
negated (some n) = some 0

unfoldable pub parse_int : List ℕ → Option ℕ
unfolding parse_unsigned
parse_int [] = none
parse_int (c ∷ s) =
    if c == b'-'
    then negated (in_range (2 ^ 63) (parse_unsigned s))
    else if c == b'+'
    then in_range max_int64 (parse_unsigned s)
    else in_range max_int64 (parse_unsigned (c ∷ s))

abbrev pub second : ℕ
second = 1000000000

-- The `switch` over the unit.
unfoldable pub multiplier : ℕ → Option ℕ
multiplier unit =
    if unit == b's'
    then some second
    else if unit == b'm'
    then some (60 * second)
    else if unit == b'h'
    then some (3600 * second)
    else if unit == b'd'
    then some (24 * (3600 * second))
    else none

unfoldable pub scale : ℕ → Option ℕ → Result RetentionError ℕ
scale value none = err bad_unit
scale value (some m) = if ltb (max_int64 / m) value then err too_large else ok (value * m)

unfoldable pub with_unit : ℕ → Option ℕ → Result RetentionError ℕ
unfolding scale multiplier
with_unit unit none = err invalid
with_unit unit (some value) = if value == 0 then err not_positive else scale value (multiplier unit)

unfoldable pub parse_trimmed : List ℕ → Result RetentionError ℕ
unfolding split_last parse_int with_unit
parse_trimmed [] = ok 0
parse_trimmed (c ∷ []) = err invalid
parse_trimmed (c ∷ d ∷ s) =
    let (text, unit) = split_last c (d ∷ s) in with_unit unit (parse_int text)

unfoldable pub parse_retention_duration : List ℕ → Result RetentionError ℕ
unfolding trim_space parse_trimmed
parse_retention_duration s = parse_trimmed (trim_space s)

abbrev pub is_ok {ℓ κ} : {E : Type ℓ} {A : Type κ} → Result E A → Bool
is_ok (ok a) = true
is_ok (err e) = false

-- `d, err := Parse(s); err == nil && d > 0`
abbrev pub positive : Result RetentionError ℕ → Bool
positive (ok d) = ltb 0 d
positive (err e) = false

-- A nil map has no entries.
abbrev pub overrides : RetentionConfig → Map String (List ℕ)
overrides r = or_else [] r.groups

abbrev pub is_empty : List ℕ → Bool
is_empty [] = true
is_empty (c ∷ s) = false

unfoldable pub validate_retention : Config → Bool
validate_retention config =
    default_is_valid && every entry_is_valid (overrides config.groups.retention)
  where
    default_is_valid : Bool
    default_is_valid =
        is_empty config.groups.retention.default
        || is_ok (parse_retention_duration config.groups.retention.default)

    entry_is_valid : String × List ℕ → Bool
    entry_is_valid entry = is_ok (parse_retention_duration entry.1)

unfoldable pub has_retention : Config → Bool
has_retention config =
    if positive (parse_retention_duration config.groups.retention.default)
    then true
    else exists (λ entry. positive (parse_retention_duration entry.1))
        (overrides config.groups.retention)

-- The value that the code returns for a text, 0 where it only logs the error.
abbrev pub duration : Result RetentionError ℕ → ℕ
duration (ok d) = d
duration (err e) = 0

abbrev pub own_duration : Option (List ℕ) → ℕ
own_duration none = 0
own_duration (some s) = duration (parse_retention_duration s)

unfoldable pub get_retention : Config → String → ℕ
get_retention config group =
    let own = own_duration (lookup (overrides config.groups.retention) group) in
    if ltb 0 own then own else duration (parse_retention_duration config.groups.retention.default)
