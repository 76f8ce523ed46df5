-- ===== src/Base/Fixed.antt =====
-- Fixed-point numbers with three decimals: an instance of the laws of `Float`, for the tests.
-- Differences stop at zero, which the laws allow.
use Prim.Native.Nat.{ℕ, ◌+◌, ◌-◌, ◌*◌, ◌/◌, ◌≤◌, ◌<◌, min}
use native.Mathlib.Omega.{arith}
use native.Mathlib.Nat.{le-div_iff_mul-le, div-mul-le_self, div-le_of_le-mul, le_trans}
use coolerocontrol.Base.Tests.{leb}
use coolerocontrol.Base.Float.{Float, IsOrdered, IsRounded}

instance abbrev pub fixed : Float ℕ
fixed = record {
  leb = leb;
  add = λ a b. a + b;
  sub = λ a b. a - b;
  mul = λ a b. a * b / 1000;
  div = λ a b. a * 1000 / b;
  of_nat = λ n. n * 1000;
  round = λ a. (a + 500) / 1000 * 1000;
  as_u8 = λ a. min 255 (a / 1000);
}

div_mono_left : (x y c : ℕ) → 0 < c → x ≤ y → x / c ≤ y / c
div_mono_left x y c p h = (le-div_iff_mul-le p).1 (le_trans (div-mul-le_self x c) h)

scaled_mono : (a b n : ℕ) → a ≤ b → a * (n * 1000) / 1000 ≤ b * (n * 1000) / 1000
scaled_mono a b n h = div_mono_left _ _ 1000 (omega arith) (grind arith)

scaled-le : (a n : ℕ) → a ≤ 1000 → a * (n * 1000) / 1000 ≤ n * 1000
scaled-le a n h = div-le_of_le-mul 1000 (grind arith)

share-le-one : (a c : ℕ) → a ≤ c → a * 1000 / c ≤ 1000
share-le-one a c h = div-le_of_le-mul c (omega arith)

pub fixed-IsOrdered : IsOrdered ℕ
fixed-IsOrdered = record { leb_total = λ a b. ground arith; leb_trans = λ a b c h k. ground arith }

pub fixed-IsRounded : IsRounded ℕ
fixed-IsRounded = record {
  sub_mono = λ a b c h. ground arith;
  sub_nonneg = λ a b h. ground arith;
  sub_pos = λ a b h. ground arith;
  div_mono = λ a b c p h k. ground (arith, div_mono_left (a * 1000) (b * 1000) c);
  div_nonneg = λ a c p h. ground arith;
  div-le-one = λ a c p h k. ground (arith, share-le-one a c);
  mul_mono = λ a b n s h k l. ground (arith, scaled_mono a b n);
  mul_nonneg = λ a n s h. ground arith;
  mul-le = λ a n s h k. ground (arith, scaled-le a n);
  add_mono = λ a b c h. ground arith;
  of_nat_sub = λ m n h s. ground arith;
  of_nat_add = λ m n s. ground arith;
  as_u8_mono = λ a b h. ground arith;
  as_u8_of_nat = λ n s. ground arith;
}
