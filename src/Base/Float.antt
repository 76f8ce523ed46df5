-- ===== src/Base/Float.antt =====
-- `f64`, as a parameter of the model. The type stands for floats that are not NaN, so `<` is the
-- negation of `>=`, and `==` is `<=` both ways. The two records of laws are what IEEE 754 says of them.
use Prim.Native.Nat.{ℕ, ◌+◌, ◌-◌, ◌≤◌, ◌<◌}
use mathlib.Core.Path.{◌≡◌}
use mathlib.Core.Logic.{◌⊎◌}
use mathlib.Core.Bool.{Bool, true, not, ◌&&◌}

pub record Float (F : Type 0) : Type 0 where
  -- `a <= b`
  pub leb : F → F → Bool
  pub add : F → F → F
  pub sub : F → F → F
  pub mul : F → F → F
  pub div : F → F → F
  -- A literal, or `f64::from` of an unsigned integer.
  pub of_nat : ℕ → F
  -- to the nearest integer, halves away from zero
  pub round : F → F
  -- the saturating cast `as u8`
  pub as_u8 : F → ℕ

module _ {F : Type 0} ⦃fl : Float F⦄ where
  abbrev pub fleb : F → F → Bool
  fleb a b = fl.leb a b

  abbrev pub fltb : F → F → Bool
  fltb a b = not (fl.leb b a)

  abbrev pub feqb : F → F → Bool
  feqb a b = fl.leb a b && fl.leb b a

-- The order of the floats that are not NaN.
pub record IsOrdered (F : Type 0) ⦃fl : Float F⦄ : Type 0 where
  pub leb_total : (a b : F) → (fl.leb a b ≡ true) ⊎ (fl.leb b a ≡ true)
  pub leb_trans : (a b c : F) → fl.leb a b ≡ true → fl.leb b c ≡ true → fl.leb a c ≡ true

-- The operations on finite floats, as far as an interpolation needs them: rounding is monotone, and
-- small integers are exact.
pub record IsRounded (F : Type 0) ⦃fl : Float F⦄ : Type 0 where
  pub sub_mono : (a b c : F) → fl.leb a b ≡ true → fl.leb (fl.sub a c) (fl.sub b c) ≡ true
  pub sub_nonneg : (a b : F) → fl.leb b a ≡ true → fl.leb (fl.of_nat 0) (fl.sub a b) ≡ true
  pub sub_pos : (a b : F) → fltb b a ≡ true → fltb (fl.of_nat 0) (fl.sub a b) ≡ true
  pub div_mono :
      (a b c : F)
      → fltb (fl.of_nat 0) c ≡ true
      → fl.leb (fl.of_nat 0) a ≡ true
      → fl.leb a b ≡ true
      → fl.leb (fl.div a c) (fl.div b c) ≡ true
  pub div_nonneg :
      (a c : F)
      → fltb (fl.of_nat 0) c ≡ true
      → fl.leb (fl.of_nat 0) a ≡ true
      → fl.leb (fl.of_nat 0) (fl.div a c) ≡ true
  pub div-le-one :
      (a c : F)
      → fltb (fl.of_nat 0) c ≡ true
      → fl.leb (fl.of_nat 0) a ≡ true
      → fl.leb a c ≡ true
      → fl.leb (fl.div a c) (fl.of_nat 1) ≡ true
  pub mul_mono :
      (a b : F) (n : ℕ)
      → n < 256
      → fl.leb (fl.of_nat 0) a ≡ true
      → fl.leb a b ≡ true
      → fl.leb b (fl.of_nat 1) ≡ true
      → fl.leb (fl.mul a (fl.of_nat n)) (fl.mul b (fl.of_nat n)) ≡ true
  pub mul_nonneg :
      (a : F) (n : ℕ)
      → n < 256
      → fl.leb (fl.of_nat 0) a ≡ true
      → fl.leb (fl.of_nat 0) (fl.mul a (fl.of_nat n)) ≡ true
  pub mul-le :
      (a : F) (n : ℕ)
      → n < 256
      → fl.leb (fl.of_nat 0) a ≡ true
      → fl.leb a (fl.of_nat 1) ≡ true
      → fl.leb (fl.mul a (fl.of_nat n)) (fl.of_nat n) ≡ true
  pub add_mono : (a b c : F) → fl.leb a b ≡ true → fl.leb (fl.add c a) (fl.add c b) ≡ true
  pub of_nat_sub :
      (m n : ℕ) → m ≤ n → n < 256 → fl.sub (fl.of_nat n) (fl.of_nat m) ≡ fl.of_nat (n - m)
  pub of_nat_add : (m n : ℕ) → m + n < 256 → fl.add (fl.of_nat m) (fl.of_nat n) ≡ fl.of_nat (m + n)
  pub as_u8_mono : (a b : F) → fl.leb a b ≡ true → fl.as_u8 (fl.round a) ≤ fl.as_u8 (fl.round b)
  pub as_u8_of_nat : (n : ℕ) → n < 256 → fl.as_u8 (fl.round (fl.of_nat n)) ≡ n
