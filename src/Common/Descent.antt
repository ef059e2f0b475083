-- ===== src/Common/Descent.antt =====
-- Recursion on a number that gets smaller.
use Prim.Native.Nat.{ℕ, zero, suc, ◌<◌}
use mathlib.Core.WellFounded.{Acc}
use native.Mathlib.Omega.{arith}

-- Every number is accessible.
unfoldable pub below : (bound n : ℕ) → n < bound → Acc ◌<◌ n
below zero n h = elim h [ ]
below (suc bound) n h = Acc.intro n (λ m lower. below bound m (omega arith))
