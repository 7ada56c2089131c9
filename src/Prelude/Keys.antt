-- ===== src/Prelude/Keys.antt =====
-- Equality tests as an interface, with the instances for numbers and texts.
use Prim.Native.Nat.{ℕ}
use Prim.Native.String.{String}
use mathlib.Core.Path.{◌≡◌, refl}
use mathlib.Core.Logic.{◌↔◌}
use mathlib.Core.Bool.{Bool, true}
use native.Mathlib.Omega.{arith}
use text.Mathlib.Text.{◌==◌ as str_eq}
use text.Mathlib.TextEquality.{eq_iff}
use unicity_relay.Prelude.Tests.{nat_beq}

-- A type of keys: `beq` is Go's `==` on it.
pub record Eq {ℓ} (Key : Type ℓ) : Type ℓ where
  pub beq : Key → Key → Bool
  pub beq_iff : (j k : Key) → (beq j k ≡ true) ↔ (j ≡ k)

-- Texts are compared by their bytes.
instance abbrev pub string_eq : Eq String
string_eq = record { beq = str_eq; beq_iff = eq_iff }

pub nat_beq_iff : (m n : ℕ) → (nat_beq m n ≡ true) ↔ (m ≡ n)
nat_beq_iff m n = ground arith

-- Public keys, ids, kinds and times are numbers.
instance abbrev pub nat_eq : Eq ℕ
nat_eq = record { beq = nat_beq; beq_iff = nat_beq_iff }

infix 50 ◌==◌
abbrev pub ◌==◌ {ℓ} : {Key : Type ℓ} ⦃keys : Eq Key⦄ → Key → Key → Bool
◌==◌ ⦃keys⦄ = keys.beq

pub ==_iff {ℓ} : {Key : Type ℓ} ⦃keys : Eq Key⦄ (j k : Key) → ((j == k) ≡ true) ↔ (j ≡ k)
==_iff ⦃keys⦄ j k = keys.beq_iff j k

pub ==_refl {ℓ} : {Key : Type ℓ} ⦃keys : Eq Key⦄ (k : Key) → (k == k) ≡ true
==_refl k = (==_iff k k).1 refl
