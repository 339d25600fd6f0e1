-- ===== src/Prelude.antt =====
-- Names that every module shares: those of the libraries, passed on, and those of the children.
mod Tests
mod Lists
mod Maps
mod Int
mod Decimal
mod Text
pub use Tests.*
pub use Lists.*
unfoldable pub use Maps.*
unfoldable pub use Int.*
unfoldable pub use Text.*
unfoldable pub use Decimal.{decimal, digit, digits}
pub use Prim.Native.Nat.{ℕ, zero, suc, ◌+◌, ◌-◌, ◌*◌, ◌/◌, ◌%◌, ◌≤◌, ◌<◌}
pub use Prim.Native.String.{String, count, ◌++◌ as ◌<>◌}
pub use mathlib.Core.Path.{◌≡◌, refl, sym, ap, ◌∙◌, subst}
pub use mathlib.Core.Logic.{◌≢◌, ◌↔◌, ◌⊎◌, inl, inr}
pub use mathlib.Core.Bool.{Bool, true, false, not, ◌&&◌, ◌||◌}
pub use mathlib.Core.Option.{Option, none, some, get_or}
pub use mathlib.Core.List.{List, [], ◌∷◌, ◌++◌, map}
pub use native.Mathlib.Omega.{arith}
pub use text.Mathlib.TextEquality.{eq_iff}
pub use text.Mathlib.TextPositions.{eq_refl}
