-- ===== src/Prelude.antt =====
-- Names that every module shares: the libraries' names passed on, Boolean tests, lists measured by
-- native numbers, and texts as lists of code units.
mod Tests
mod Lists
mod Order
mod Texts
mod Strings
pub use Tests.*
pub use Lists.*
pub use Order.*
unfoldable pub use Texts.*
unfoldable pub use Strings.*
pub use Prim.Native.Nat.{ℕ, zero, suc, ◌+◌, ◌-◌, ◌*◌, ◌/◌, ◌%◌, ◌^◌, ◌≤◌, ◌<◌, min}
pub use Prim.Native.String.{String}
pub use mathlib.Core.Path.{◌≡◌, refl, sym, ap, ◌∙◌}
pub use mathlib.Core.Logic.{◌≢◌, ◌↔◌, ◌⊎◌, inl, inr}
pub use mathlib.Core.Bool.{Bool, true, false, not, ◌&&◌, ◌||◌}
pub use mathlib.Core.Option.{Option, none, some}
pub use mathlib.Core.List.{List, [], ◌∷◌, ◌++◌, map, append_assoc, append-nil}
pub use native.Mathlib.Omega.{arith}
