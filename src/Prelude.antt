-- ===== src/Prelude.antt =====
-- The names that the modules share: the libraries', passed on, Boolean tests, lists over the
-- native numbers, counted loops and arithmetic on unsigned 32-bit words.
mod Tests
mod Lists
mod Words
mod Options
mod Ranges
mod Loops
pub use Tests.*
pub use Lists.*
pub use Words.*
pub use Options.*
pub use Ranges.*
pub use Loops.*
pub use Prim.Native.Nat.{ℕ, zero, suc, ◌+◌, ◌-◌, ◌*◌, ◌/◌, ◌%◌, ◌^◌, ◌≤◌, ◌<◌, bit_and, bit_or}
pub use mathlib.Core.Path.{◌≡◌, refl, sym, subst, ap, ◌∙◌}
pub use mathlib.Core.Logic.{◌≢◌, ◌↔◌, ◌⊎◌, inl, inr}
pub use mathlib.Core.Bool.{Bool, true, false, not, ◌&&◌, ◌||◌}
pub use mathlib.Core.Option.{Option, none, some}
pub use mathlib.Core.List.{List, [], ◌∷◌, ◌++◌, map, reverse, append_assoc}
pub use native.Mathlib.Omega.{arith}
