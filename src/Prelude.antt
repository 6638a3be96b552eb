-- ===== src/Prelude.antt =====
-- What the other modules share: the names of the libraries, passed on, Boolean tests and the
-- conditional, integers for the `int` arguments that may be negative, and results with an error.
mod Tests
pub mod Int
pub mod Result
pub mod Lists
pub mod Text
pub mod Sort
pub mod Strip
pub mod Sets
pub mod Dict
pub mod Json
pub mod Order
pub mod Upper
pub mod Normal
pub mod Collect
pub use Tests.*
pub use Prim.Native.Nat.{ℕ, zero, suc, ◌+◌, ◌-◌, ◌*◌, ◌/◌, ◌%◌, ◌≤◌, ◌<◌}
pub use Prim.Native.String.{String}
pub use mathlib.Core.Path.{◌≡◌, refl, sym, ap, ◌∙◌, subst}
pub use mathlib.Core.Logic.{◌≢◌, ◌↔◌, ◌⊎◌, inl, inr}
pub use mathlib.Core.Bool.{Bool, true, false, not, ◌&&◌, ◌||◌}
pub use mathlib.Core.Option.{Option, none, some}
pub use mathlib.Core.List.{List, [], ◌∷◌, ◌++◌, map}
pub use native.Mathlib.Omega.{arith}
pub use text.Mathlib.Text.{◌==◌}
pub use text.Mathlib.TextEquality.{eq_iff}
pub use text.Mathlib.TextPositions.{eq_refl}
