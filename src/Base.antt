-- ===== src/Base.antt =====
-- The names that the other modules share.
mod Tests
mod Lists
mod Equality
pub mod Outcome
pub mod Dict
pub mod Set
pub mod Float
pub mod Fixed
pub mod Int
pub mod State
pub use Tests.*
pub use Lists.*
pub use Equality.{Eq, ◌==◌, nat_eq, string_eq, string_eq_iff}
pub use Prim.Native.Nat.{ℕ, zero, suc, ◌+◌, ◌-◌, ◌*◌, ◌/◌, ◌%◌, ◌^◌, ◌≤◌, ◌<◌, min, max}
pub use Prim.Native.String.{String}
pub use mathlib.Core.Path.{◌≡◌, refl, sym, ap, subst, ◌∙◌}
pub use mathlib.Core.Logic.{◌≢◌, ◌↔◌, ◌⊎◌, inl, inr}
pub use mathlib.Core.Bool.{Bool, true, false, not, ◌&&◌, ◌||◌}
pub use mathlib.Core.Option.{Option, none, some}
pub use mathlib.Core.List.{List, [], ◌∷◌, ◌++◌, map, reverse}
pub use native.Mathlib.Omega.{arith}
