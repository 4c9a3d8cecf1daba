-- ===== src/Prelude.antt =====
-- The names that the other modules share: the libraries', passed on, and those of children.
mod Tests
mod Lists
mod Int
mod Maps
mod Text
mod Sort
mod Bytes
mod Split
mod Decimal
pub use Tests.*
unfoldable pub use Lists.*
pub use Int.*
unfoldable pub use Maps.*
unfoldable pub use Text.*
unfoldable pub use Sort.*
unfoldable pub use Bytes.*
unfoldable pub use Split.*
unfoldable pub use Decimal.*
pub use Prim.Native.Nat.{ℕ, zero, suc, ◌+◌, ◌-◌, ◌*◌, ◌/◌, ◌%◌, ◌^◌, ◌≤◌, ◌<◌, min, max}
pub use Prim.Native.String.{String}
pub use mathlib.Core.Path.{◌≡◌, refl, sym, ap, ◌∙◌, subst}
pub use mathlib.Core.Logic.{◌≢◌, ◌↔◌, ◌⊎◌, inl, inr}
pub use mathlib.Core.Bool.{Bool, true, false, not, ◌&&◌, ◌||◌}
pub use mathlib.Core.Option.{Option, none, some}
pub use mathlib.Core.List.{List, [], ◌∷◌, ◌++◌, map, Memᴰ}
pub use native.Mathlib.Omega.{arith}
pub use text.Mathlib.TextEquality.{eq_iff}
pub use text.Mathlib.TextPositions.{eq_refl}
