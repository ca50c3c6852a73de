-- ===== src/Base.antt =====
-- What the other modules share: library names passed on, Boolean tests, lists read as tables, and
-- texts as lists of code points.
mod Tests
mod Rows
pub mod Unique
pub mod Counting
pub mod Selecting
pub mod Paging
mod Characters
pub use Tests.*
pub use Rows.*
unfoldable pub use Characters.*
pub use Prim.Native.Nat.{ℕ, zero, suc, ◌+◌, ◌-◌, ◌≤◌, ◌<◌}
pub use Prim.Native.String.{String}
pub use mathlib.Core.Path.{◌≡◌, refl, sym, ap, ◌∙◌, subst}
pub use mathlib.Core.Logic.{◌≢◌, ◌↔◌, ◌⊎◌, inl, inr}
pub use mathlib.Core.Bool.{Bool, true, false, not, ◌&&◌, ◌||◌}
pub use mathlib.Core.Option.{Option, none, some}
pub use mathlib.Core.List.{List, [], ◌∷◌, ◌++◌, map}
pub use native.Mathlib.Omega.{arith}
