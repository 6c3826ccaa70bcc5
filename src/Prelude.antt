-- ===== src/Prelude.antt =====
-- The names that every module shares: the libraries', passed on, and those of the children:
-- tests on numbers, lists measured by native numbers, results of fallible code, signed integers.
mod Tests
mod Lists
mod Results
mod Int
mod Chosen
pub use Tests.*
pub use Lists.*
pub use Results.*
pub use Int.*
pub use Chosen.*
pub use Prim.Native.Nat.{ℕ, zero, suc, ◌+◌, ◌-◌, ◌*◌, ◌/◌, ◌%◌, ◌^◌, ◌≤◌, ◌<◌, min}
pub use Prim.Native.String.{String}
pub use mathlib.Core.Path.{◌≡◌, refl, sym, ap, ◌∙◌}
pub use mathlib.Core.Logic.{◌≢◌, ◌↔◌, ◌⊎◌, inl, inr}
pub use mathlib.Core.Bool.{Bool, true, false, not, ◌&&◌, ◌||◌}
pub use mathlib.Core.Option.{Option, none, some}
pub use mathlib.Core.List.{List, [], ◌∷◌, ◌++◌, map, append_assoc, append-nil}
pub use native.Mathlib.Omega.{arith}
