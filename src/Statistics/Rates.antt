-- ===== src/Statistics/Rates.antt =====
-- Exact rates: src/domain/statistics/statistic-values.ts. The source computes in doubles and then
-- tests for a safe integer; rounding cannot bring a sum or product of nonnegative integers back below
-- 2 ^ 53, so the test on the exact number is the same.
pub mod Gcd
pub mod Lowest
use mathlib.Core.WellFounded.{Acc}
use baseballstattrack.Common.Descent.{below}
use baseballstattrack.Common.{
  ℕ, zero, suc, ◌+◌, ◌*◌, ◌/◌, ◌%◌, ◌<◌, Bool, true, false, not, ◌&&◌, Option, none, some, ltb, leb,
  if◌then◌else◌, ◌==◌, nat_eq, arith, Result, ok, err, reject, ◌>>◌, ◌>>=◌, StatisticErrorCode,
}

-- `Number.isSafeInteger` of a nonnegative integer.
abbrev pub is_safe : ℕ → Bool
is_safe n = ltb n 9_007_199_254_740_992

pub remainder-lt : (a c : ℕ) → a % suc c < suc c
remainder-lt a c = omega arith

-- `while (b !== 0) { [a, b] = [b, a % b] }`
unfoldable pub divisor_loop : (a b : ℕ) → Acc ◌<◌ b → ℕ
divisor_loop a b (Acc.intro zero _) = a
divisor_loop a b (Acc.intro (suc c) next) =
    divisor_loop (suc c) (a % suc c) (next (a % suc c) (remainder-lt a c))

unfoldable pub greatest_common_divisor : ℕ → ℕ → ℕ
unfolding below divisor_loop
greatest_common_divisor left right = divisor_loop left right (below (suc right) right (omega arith))

pub record ExactRate : Type 0 where
  pub numerator : ℕ
  pub denominator : ℕ

abbrev pub assert_safe_nonnegative_integer : ℕ → Result (Unit {0})
assert_safe_nonnegative_integer n =
    reject (not (is_safe n)) StatisticErrorCode.impossible_counter_state

-- A rate in lowest terms, and none without a denominator.
abbrev pub reduced : ℕ → ℕ → Option ExactRate
reduced numerator denominator =
    let divisor = greatest_common_divisor numerator denominator in
    if denominator == 0
    then none
    else some (record { numerator = numerator / divisor; denominator = denominator / divisor })

unfoldable pub exact_rate : ℕ → ℕ → Result (Option ExactRate)
exact_rate numerator denominator = do
  assert_safe_nonnegative_integer numerator
  assert_safe_nonnegative_integer denominator
  ok (reduced numerator denominator)

unfoldable pub add_exact_rates : Option ExactRate → Option ExactRate → Result (Option ExactRate)
unfolding exact_rate
add_exact_rates none right = ok none
add_exact_rates (some left) none = ok none
add_exact_rates (some left) (some right) =
    let numerator = left.numerator * right.denominator + right.numerator * left.denominator in
    let denominator = left.denominator * right.denominator in
    do
      reject (not (is_safe numerator && is_safe denominator))
          StatisticErrorCode.impossible_counter_state
      exact_rate numerator denominator
