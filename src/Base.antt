-- ===== src/Base.antt =====
-- The names that all modules share: the libraries', passed on, and those of the children.
mod Tests
mod Lists
mod Results
mod Slices
pub mod Bytes
pub mod Int
pub mod Bits
pub use Tests.*
pub use Slices.*
pub use Lists.*
pub use Results.*
pub use Prim.Native.Nat.{ℕ, zero, suc, ◌+◌, ◌-◌, ◌*◌, ◌/◌, ◌%◌, ◌^◌, ◌≤◌, ◌<◌, min, bit_and, bit_or}
pub use mathlib.Core.Path.{◌≡◌, refl, sym, ap, ap₂, subst, ◌∙◌}
pub use mathlib.Core.Logic.{◌≢◌, ◌↔◌, ◌⊎◌, inl, inr}
pub use mathlib.Core.Bool.{Bool, true, false, not, ◌&&◌, ◌||◌}
pub use mathlib.Core.Option.{Option, none, some}
pub use mathlib.Core.List.{List, [], ◌∷◌, ◌++◌, map}
pub use native.Mathlib.Omega.{arith}
unfoldable pub use native.Mathlib.Decide.{dec_lt, dec_le, ℕ_discrete}
