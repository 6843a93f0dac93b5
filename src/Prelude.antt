-- ===== src/Prelude.antt =====
-- The names that the other modules share: the libraries', passed on, and those of the children.
mod Tests
mod Lists
mod Results
pub mod Int
unfoldable pub use Tests.{text_eq, option_eq}
pub use Tests.{
  ltb, leb, ◌==◌, if◌then◌else◌, ==→eq, ==_refl, Bool-cases, Option-cases, &&→both, Text, Bytes,
  codes, text_eq_refl, text_eq→eq, option_eq_refl, option_eq→eq, is_none, is_some, none≢some,
}
pub use Lists.*
pub use Results.*
pub use Int.{ℤ, pos, negsuc, negative, positive, int_eq, int_eq_refl, int_eq→eq}
pub use Prim.Native.Nat.{ℕ, zero, suc, ◌+◌, ◌-◌, ◌*◌, ◌/◌, ◌%◌, ◌≤◌, ◌<◌, min}
pub use Prim.Native.String.{String}
pub use mathlib.Core.Path.{◌≡◌, refl, sym, ap, ap₂, ◌∙◌, subst}
pub use mathlib.Core.Logic.{◌≢◌, ◌↔◌, ◌⊎◌, inl, inr}
pub use mathlib.Core.Bool.{Bool, true, false, not, ◌&&◌, ◌||◌}
pub use mathlib.Core.Option.{Option, none, some, some-injective}
pub use mathlib.Core.List.{List, [], ◌∷◌, ◌++◌, map}
pub use native.Mathlib.Omega.{arith}
