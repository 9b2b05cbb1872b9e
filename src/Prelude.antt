-- ===== src/Prelude.antt =====
-- The names that the other modules share: the libraries', passed on, and those of the children.
mod Tests
mod Lists
mod Texts
mod Assoc
pub mod Fallible
pub use Tests.*
pub use Lists.*
unfoldable pub use Texts.{text_eq, split_on, contains_code}
pub use Texts.{
  Text, codes, text_eq_iff, text_eq_refl, split_on_none, split_on_one, split_on-append,
  contains_code-append,
}
unfoldable pub use Assoc.{lookup, insert, remove}
pub use Assoc.{
  keys, IsMap, lookup-insert, lookup-remove, insert-IsMap, remove-IsMap, length-insert,
  length-remove-le,
}
pub use Prim.Native.Nat.{ℕ, zero, suc, ◌+◌, ◌-◌, ◌*◌, ◌/◌, ◌%◌, ◌^◌, ◌≤◌, ◌<◌, min}
pub use mathlib.Core.Path.{◌≡◌, refl, sym, ap, subst, ◌∙◌}
pub use mathlib.Core.Logic.{◌≢◌, ◌↔◌, ◌⊎◌, inl, inr}
pub use mathlib.Core.Bool.{Bool, true, false, not, ◌&&◌, ◌||◌}
pub use mathlib.Core.Option.{Option, none, some}
pub use mathlib.Core.List.{List, [], ◌∷◌, ◌++◌, map}
pub use native.Mathlib.Omega.{arith}
unfoldable pub use native.Mathlib.Decide.{ℕ_discrete}
