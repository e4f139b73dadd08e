-- ===== src/Base.antt =====
-- The names that the other modules share: the libraries' own, passed on, and those of the
-- children: Boolean tests, lists over the native numbers, texts and stable sorting.
mod Tests
mod Lists
mod Select
mod Texts
mod Sort
mod Dicts
pub mod Int
pub mod Json
pub mod Codec
pub use Tests.*
unfoldable pub use Lists.*
pub use Select.*
unfoldable pub use Texts.*
unfoldable pub use Sort.*
unfoldable pub use Dicts.*
pub use Prim.Native.Nat.{ℕ, zero, suc, ◌+◌, ◌-◌, ◌*◌, ◌/◌, ◌%◌, ◌^◌, ◌≤◌, ◌<◌, min, max}
pub use mathlib.Core.Path.{◌≡◌, refl, sym, ap, subst, ◌∙◌}
pub use mathlib.Core.Logic.{◌≢◌, ◌↔◌, ◌⊎◌, inl, inr}
pub use mathlib.Core.Bool.{Bool, true, false, not, ◌&&◌, ◌||◌}
pub use mathlib.Core.Option.{Option, none, some}
pub use mathlib.Core.List.{List, [], ◌∷◌, ◌++◌, map}
pub use native.Mathlib.Omega.{arith}
unfoldable pub use native.Mathlib.Decide.{dec_lt, dec_le}
