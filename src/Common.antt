-- ===== src/Common.antt =====
-- Names that every module shares: the libraries', passed on, and the helpers of the children.
mod Tests
mod Lists
mod Equality
mod Outcome
mod Dictionary
mod Laws
pub mod Sorting
pub mod Descent
pub use Tests.*
pub use Lists.*
pub use Equality.*
pub use Dictionary.*
pub use Laws.*
pub use Outcome.{
  EventErrorCode, StatisticErrorCode, Failure, thrown, underivable, type_error, reject, Result, ok,
  err, raise, guard, or_raise, ◌>>=◌, ◌>>◌, >>=-eq-ok, >>-eq-ok, checked-eq-ok, ok-injective,
  guard-eq-ok, guard_passed, reject_passed, or_raise-eq-ok, Result-cases,
}
pub use Prim.Native.Nat.{ℕ, zero, suc, ◌+◌, ◌-◌, ◌*◌, ◌/◌, ◌%◌, ◌≤◌, ◌<◌}
pub use mathlib.Core.Path.{◌≡◌, refl, sym, ap, ◌∙◌}
pub use mathlib.Core.Logic.{◌≢◌, ◌↔◌, ◌⊎◌, inl, inr}
pub use mathlib.Core.Bool.{Bool, true, false, ◌&&◌, ◌||◌, not}
pub use mathlib.Core.Option.{Option, none, some}
pub use mathlib.Core.List.{List, [], ◌∷◌, ◌++◌, map}
pub use native.Mathlib.Omega.{arith}
