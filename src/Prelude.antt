-- ===== src/Prelude.antt =====
-- What the other modules share: library names, tests on numbers, lists, loops, sums, signed integers and fatal errors.
mod Tests
mod Lists
mod Loops
mod Sums
mod Signed
mod Fatal
mod Doubles
mod Reals
mod Exact
mod Texts
mod Sweeps
pub use Tests.*
pub use Lists.*
unfoldable pub use Loops.{for_range}
pub use Loops.{for_range_inv, for_range_all, for_range_reach}
pub use Sums.*
pub use Signed.*
pub use Fatal.*
pub use Doubles.{Double}
pub use Reals.*
pub use Exact.*
pub use Sweeps.{is_owned, sweep_lem}
pub use Texts.{Text, text_eq, text_eq_self, text_eq→eq}
pub use Prim.Native.Nat.{ℕ, zero, suc, ◌+◌, ◌-◌, ◌*◌, ◌/◌, ◌%◌, ◌≤◌, ◌<◌, min, max}
pub use mathlib.Core.Path.{◌≡◌, refl, sym, ap, ◌∙◌}
pub use mathlib.Core.Logic.{◌≢◌, ◌↔◌, ◌⊎◌, inl, inr}
pub use mathlib.Core.Bool.{Bool, true, false, not, ◌&&◌, ◌||◌}
pub use mathlib.Core.Option.{Option, none, some}
pub use mathlib.Core.List.{List, [], ◌∷◌, ◌++◌, map}
pub use native.Mathlib.Omega.{arith}
