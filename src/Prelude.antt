-- ===== src/Prelude.antt =====
-- The names that the other modules share: the libraries', passed on, and those of the children.
mod Tests
mod Lists
mod Texts
mod Sets
pub mod Ints
pub mod Json
pub mod Objects
pub mod Decimal
pub mod Sort
pub mod Maps
pub use Tests.*
pub use Lists.*
unfoldable pub use Texts.{◌==◌}
pub use Texts.{Text, js, ==_iff, ==_refl, ==_sym, is_empty}
unfoldable pub use Sets.{contains, add, delete}
pub use Sets.{
  HasNoRepeat, contains-append, contains-add, contains-delete, add-HasNoRepeat, delete-HasNoRepeat,
}
pub use Prim.Native.Nat.{ℕ, zero, suc, ◌+◌, ◌-◌, ◌*◌, ◌/◌, ◌%◌, ◌^◌, ◌≤◌, ◌<◌}
pub use Prim.Native.String.{String}
pub use mathlib.Core.Path.{◌≡◌, refl, sym, ap, ◌∙◌}
pub use mathlib.Core.Logic.{◌≢◌, ◌↔◌, ◌⊎◌, inl, inr}
pub use mathlib.Core.Bool.{Bool, true, false, ◌&&◌, ◌||◌, not}
pub use mathlib.Core.Option.{Option, none, some}
pub use mathlib.Core.List.{List, [], ◌∷◌, ◌++◌, map}
pub use native.Mathlib.Omega.{arith}
