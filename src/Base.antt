-- ===== src/Base.antt =====
-- Names and lemmas that every module shares: library names passed on, Boolean tests on numbers,
-- lists measured by native numbers, and the result type of code that raises.
mod Tests
mod Lists
mod Results
mod Int
pub mod Sort
pub mod Member
pub use Tests.*
unfoldable pub use Lists.*
pub use Results.*
pub use Int.*
pub use Prim.Native.Nat.{ℕ, zero, suc, ◌+◌, ◌-◌, ◌*◌, ◌/◌, ◌%◌, ◌^◌, ◌≤◌, ◌<◌, min, max}
pub use mathlib.Core.Path.{◌≡◌, refl, sym, ap, subst, ◌∙◌}
pub use mathlib.Core.Logic.{◌≢◌, ◌↔◌, ◌⊎◌, inl, inr}
pub use mathlib.Core.Bool.{Bool, true, false, not, ◌&&◌, ◌||◌}
pub use mathlib.Core.Option.{Option, none, some}
pub use mathlib.Core.List.{List, [], ◌∷◌, ◌++◌, map}
pub use native.Mathlib.Omega.{arith}
