-- ===== src/Base/Equality.antt =====
-- Rust's `Eq`: a Boolean test that is an equivalence. It need not be the identity: the program
-- compares profiles by their UID only, and device channels without the kind of their setting.
use Prim.Native.Nat.{ℕ}
use Prim.Native.String.{String}
use mathlib.Core.Path.{◌≡◌}
use mathlib.Core.Bool.{Bool, true}
use coolerocontrol.Base.Tests.{nat_eqb}
use native.Mathlib.Omega.{arith}
use text.Mathlib.Text.{◌==◌ as str_eqb}
use text.Mathlib.TextEquality.{eq_iff}
use text.Mathlib.TextPositions.{eq_refl}

pub record Eq {ℓ} (K : Type ℓ) : Type ℓ where
  pub eq : K → K → Bool
  pub eq_self : (a : K) → eq a a ≡ true
  pub eq_sym : (a b : K) → eq a b ≡ true → eq b a ≡ true
  pub eq_trans : (a b c : K) → eq a b ≡ true → eq b c ≡ true → eq a c ≡ true

infix 50 ◌==◌
abbrev pub ◌==◌ {ℓ} : {K : Type ℓ} ⦃e : Eq K⦄ → K → K → Bool
◌==◌ ⦃e⦄ = e.eq

pub str_eq_sym : (a b : String) → str_eqb a b ≡ true → str_eqb b a ≡ true
str_eq_sym a b h = ground (arith, eq_iff a b, eq_iff b a)

pub str_eq_trans : (a b c : String) → str_eqb a b ≡ true → str_eqb b c ≡ true → str_eqb a c ≡ true
str_eq_trans a b c h k = ground (arith, eq_iff a b, eq_iff b c, eq_iff a c)

pub nat_eqb_self : (a : ℕ) → nat_eqb a a ≡ true
nat_eqb_self a = ground arith

pub nat_eqb_sym : (a b : ℕ) → nat_eqb a b ≡ true → nat_eqb b a ≡ true
nat_eqb_sym a b h = ground arith

pub nat_eqb_trans : (a b c : ℕ) → nat_eqb a b ≡ true → nat_eqb b c ≡ true → nat_eqb a c ≡ true
nat_eqb_trans a b c h k = ground arith

instance abbrev pub nat_eq : Eq ℕ
nat_eq = record {
  eq = nat_eqb;
  eq_self = nat_eqb_self;
  eq_sym = nat_eqb_sym;
  eq_trans = nat_eqb_trans;
}

instance abbrev pub string_eq : Eq String
string_eq = record { eq = str_eqb; eq_self = eq_refl; eq_sym = str_eq_sym; eq_trans = str_eq_trans }

-- For texts the test is the identity.
pub string_eq_iff : (a b : String) → a == b ≡ true → a ≡ b
string_eq_iff a b h = (eq_iff a b).0 h
