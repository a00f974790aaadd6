-- ===== src/Prelude.antt =====
-- The names that the other modules share: the libraries', passed on, and those of the children.
mod Tests
mod Lists
mod Members
mod Texts
mod Results
mod Integers
unfoldable pub use Tests.*
unfoldable pub use Lists.*
unfoldable pub use Texts.*
pub use Members.*
pub use Results.*
unfoldable pub use Integers.*
pub use Prim.Native.Nat.{ℕ, zero, suc, ◌+◌, ◌-◌, ◌*◌, ◌/◌, ◌%◌, ◌^◌, ◌≤◌, ◌<◌, min}
pub use Prim.Native.Char.{Char, code}
pub use Prim.Native.String.{String}
pub use mathlib.Core.Path.{◌≡◌, refl, sym, ap, ◌∙◌, subst}
pub use mathlib.Core.Logic.{◌≢◌, ◌↔◌, ◌⊎◌, inl, inr}
pub use mathlib.Core.Bool.{Bool, true, false, not, ◌&&◌, ◌||◌, cond}
pub use mathlib.Core.Option.{Option, none, some}
pub use mathlib.Core.List.{
  List, [], ◌∷◌, ◌++◌, map, reverse, Perm, Mem, mem-cons_self, mem-cons_of_mem,
}
pub use native.Mathlib.Omega.{arith}
pub use text.Mathlib.TextEquality.{eq_iff}
pub use text.Mathlib.TextPositions.{eq_refl}
unfoldable pub use mathlib.Core.Bool.{xor}
