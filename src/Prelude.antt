-- ===== src/Prelude.antt =====
-- The names that every component shares: the libraries', passed on, and those of five children:
-- Boolean tests, lists over the native numbers, bytes and text, the two outcomes of a call, and signed
-- integers.
mod Tests
mod Lists
mod Text
mod Calls
mod Ints
pub use Tests.*
pub use Lists.*
unfoldable pub use Text.*
pub use Calls.*
unfoldable pub use Ints.*
pub use Prim.Native.Nat.{ℕ, zero, suc, ◌+◌, ◌-◌, ◌*◌, ◌/◌, ◌%◌, ◌^◌, ◌≤◌, ◌<◌, min, max}
pub use Prim.Native.String.{String}
pub use mathlib.Core.Path.{◌≡◌, refl, sym, ap, ap₂, subst, ◌∙◌}
pub use mathlib.Core.Logic.{◌≢◌, ◌↔◌, ◌⊎◌, inl, inr}
pub use mathlib.Core.Bool.{Bool, true, false, not, ◌&&◌, ◌||◌}
pub use mathlib.Core.Option.{Option, none, some}
pub use mathlib.Core.List.{List, [], ◌∷◌, ◌++◌, map, append-nil, append_assoc}
pub use native.Mathlib.Omega.{arith}
