-- ===== src/Base/Int.antt =====
-- `i64`: signed integers over the native numbers, and the checked conversions to unsigned words.
use Prim.Native.Nat.{ℕ, ◌<◌, ◌≤◌}
use mathlib.Core.Path.{◌≡◌}
use mathlib.Core.Option.{Option, none, some}
use native.Mathlib.Omega.{arith}
use coolerocontrol.Base.Tests.{ltb, if◌then◌else◌}

-- `negsuc n` is -(n + 1).
pub data ℤ : Type 0 where
  pos : ℕ → ℤ
  negsuc : ℕ → ℤ

-- `u8::try_from(n).ok()` and the like: the value, if it lies below the bound.
unfoldable pub try_below : ℕ → ℤ → Option ℕ
try_below bound (pos n) = if ltb n bound then some n else none
try_below bound (negsuc n) = none

abbrev pub try_u8 : ℤ → Option ℕ
try_u8 = try_below 256

abbrev pub try_u16 : ℤ → Option ℕ
try_u16 = try_below 65536

-- `n.clamp(lo, hi)` for unsigned words.
abbrev pub clamp : ℕ → ℕ → ℕ → ℕ
clamp lo hi n = if ltb n lo then lo else if ltb hi n then hi else n

-- `n.clamp(lo, hi)` for an `i64` and bounds that are not negative.
unfoldable pub clamp_int : ℕ → ℕ → ℤ → ℕ
clamp_int lo hi (pos n) = clamp lo hi n
clamp_int lo hi (negsuc n) = lo

pub try_below-pos : (bound n : ℕ) → n < bound → try_below bound (pos n) ≡ some n
unfolding try_below
try_below-pos bound n h = ground arith

pub try_below-lt : (bound : ℕ) (z : ℤ) (n : ℕ) → try_below bound z ≡ some n → n < bound
unfolding try_below
try_below-lt bound (pos m) n h = ground arith
try_below-lt bound (negsuc m) n h = cc

pub clamp_bounds : (lo hi n : ℕ) → lo ≤ hi → (lo ≤ clamp lo hi n) × (clamp lo hi n ≤ hi)
clamp_bounds lo hi n h = ground arith

pub clamp_self : (lo hi n : ℕ) → lo ≤ n → n ≤ hi → clamp lo hi n ≡ n
clamp_self lo hi n h k = ground arith

pub clamp_int_bounds :
    (lo hi : ℕ) (z : ℤ) → lo ≤ hi → (lo ≤ clamp_int lo hi z) × (clamp_int lo hi z ≤ hi)
unfolding clamp_int
clamp_int_bounds lo hi (pos n) h = clamp_bounds lo hi n h
clamp_int_bounds lo hi (negsuc n) h = ground arith
