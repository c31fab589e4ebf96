-- ===== src/Base.antt =====
-- The names that every component shares: the libraries' names passed on, the Boolean tests on
-- native numbers, lists measured by native numbers, and association lists in the order in which a
-- JavaScript `Map` or `Set` iterates.
mod Tests
mod Lists
mod Maps
mod Texts
pub mod Strings
pub mod TextSets
pub mod Sets
pub use Tests.*
pub use Lists.*
pub use Maps.*
pub use Texts.{same_text_refl, same_text→eq, same_option, same_option_refl, same_option→eq}
unfoldable pub use Texts.{same_text}
pub use Prim.Native.String.{String}
pub use Prim.Native.Nat.{ℕ, zero, suc, ◌+◌, ◌-◌, ◌*◌, ◌/◌, ◌%◌, ◌^◌, ◌≤◌, ◌<◌}
pub use mathlib.Core.Path.{◌≡◌, refl, sym, ap, ◌∙◌, subst}
pub use mathlib.Core.Logic.{◌≢◌, ◌↔◌, ◌⊎◌, inl, inr}
pub use mathlib.Core.Bool.{Bool, true, false, not, ◌&&◌, ◌||◌}
pub use mathlib.Core.Option.{Option, none, some}
pub use mathlib.Core.List.{List, [], ◌∷◌, ◌++◌, map}
pub use native.Mathlib.Omega.{arith}
