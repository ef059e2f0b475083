-- ===== src/Statistics/Rates/Lowest.antt =====
-- A rate is in lowest terms and equal to its quotient, and so is a sum of rates.
use Prim.Native.Nat.{◌∣◌}
use mathlib.Core.Path.{subst}
use native.Mathlib.Nat
use baseballstattrack.Common.{
  ℕ, ◌*◌, ◌+◌, ◌/◌, ◌<◌, ◌≤◌, ◌≡◌, sym, ap, ◌∙◌, true, false, ◌&&◌, ◌⊎◌, inl, inr, Bool-cases, some,
  ok, err, underivable, StatisticErrorCode, nat_eq, arith,
}
use baseballstattrack.Statistics.Rates.{
  ExactRate, is_safe, exact_rate, add_exact_rates, greatest_common_divisor,
}
use baseballstattrack.Statistics.Rates.Gcd.{gcd-dvd, dvd-gcd, gcd-quotients}

-- A rate that equals the quotient, with a denominator, and whose numbers no number but one divides.
pub record IsLowest (numerator denominator : ℕ) (rate : ExactRate) : Type 0 where
  pub equal : rate.numerator * denominator ≡ numerator * rate.denominator
  pub coprime : (k : ℕ) → k ∣ rate.numerator → k ∣ rate.denominator → k ≡ 1
  pub divides : 0 < rate.denominator

abbrev quotients : ℕ → ℕ → ExactRate
quotients n d = record {
  numerator = n / greatest_common_divisor n d;
  denominator = d / greatest_common_divisor n d;
}

cross : (a b g : ℕ) → a * (b * g) ≡ a * g * b
cross a b g = rw (Nat.mul_comm b g, Nat.mul_assoc)

equal_quotients : (n d a b g : ℕ) → a * g ≡ n → b * g ≡ d → a * d ≡ n * b
equal_quotients n d a b g e f = ap (λ x. a * x) (sym f) ∙ cross a b g ∙ ap (λ x. x * b) e

quotient_pos : (d g : ℕ) → 0 < d → d / g * g ≡ d → 0 < d / g
quotient_pos d g h e = grind arith

quotients-coprime :
    (n d k : ℕ)
    → 0 < d
    → k ∣ n / greatest_common_divisor n d
    → k ∣ d / greatest_common_divisor n d
    → k ≡ 1
quotients-coprime n d k h of_n of_d = Nat.eq-one_of_dvd-one (
    subst (◌∣◌ k) (gcd-quotients n d h)
      (dvd-gcd k (n / greatest_common_divisor n d) (d / greatest_common_divisor n d) of_n of_d))

quotients-IsLowest : (n d : ℕ) → 0 < d → IsLowest n d (quotients n d)
quotients-IsLowest n d h =
    let g = greatest_common_divisor n d in
    let (of_n, of_d) = gcd-dvd n d in
    record {
      equal =
          equal_quotients n d (n / g) (d / g) g (Nat.div-mul_cancel g of_n)
            (Nat.div-mul_cancel g of_d);
      coprime = λ k. quotients-coprime n d k h;
      divides = quotient_pos d g h (Nat.div-mul_cancel g of_d);
    }

-- A rate of safe numbers with a positive denominator is their quotient, with a positive denominator,
-- in lowest terms: no number but one divides its numerator and its denominator.
pub exact_rate-IsLowest :
    (n d : ℕ)
    → is_safe n ≡ true
    → is_safe d ≡ true
    → 0 < d
    → (rate : ExactRate) × (exact_rate n d ≡ ok (some rate)) × IsLowest n d rate
unfolding exact_rate
exact_rate-IsLowest n d safe_n safe_d h = (quotients n d, ground arith, quotients-IsLowest n d h)

product_pos : (a b : ℕ) → 0 < a → 0 < b → 0 < a * b
product_pos a b h k = grind arith

abbrev pub sum_numerator : ExactRate → ExactRate → ℕ
sum_numerator left right = left.numerator * right.denominator + right.numerator * left.denominator

abbrev pub sum_denominator : ExactRate → ExactRate → ℕ
sum_denominator left right = left.denominator * right.denominator

-- 2^53, the first number that is not a safe integer.
abbrev pub first_unsafe : ℕ
first_unsafe = 9_007_199_254_740_992

safe_bounds : (n d : ℕ) → (is_safe n && is_safe d) ≡ true → (n < first_unsafe) × (d < first_unsafe)
safe_bounds n d h = (ground (arith, h), ground (arith, h))

unsafe_bounds :
    (n d : ℕ) → (is_safe n && is_safe d) ≡ false → (first_unsafe ≤ n) ⊎ (first_unsafe ≤ d)
unsafe_bounds n d h = elim (Bool-cases (is_safe n)) [
  | inl safe ↦ inr (ground arith)
  | inr unsafe ↦ inl (ground arith)
]

-- The sum of two rates with positive denominators: if its cross-multiplied numerator and denominator
-- are below 2^53, it is a rate equal to their sum, in lowest terms: no number but one divides its
-- numerator and its denominator. If one of them is 2^53 or more, the sum is refused.
pub add_exact_rates-IsLowest :
    (left right : ExactRate)
    → 0 < left.denominator
    → 0 < right.denominator
    → (sum_numerator left right < first_unsafe)
        × (sum_denominator left right < first_unsafe)
        × ((rate : ExactRate) × (add_exact_rates (some left) (some right) ≡ ok (some rate))
            × IsLowest (sum_numerator left right) (sum_denominator left right) rate)
      ⊎ ((first_unsafe ≤ sum_numerator left right) ⊎ (first_unsafe ≤ sum_denominator left right))
        × (add_exact_rates (some left) (some right)
            ≡ err (underivable StatisticErrorCode.impossible_counter_state))
unfolding add_exact_rates
add_exact_rates-IsLowest left right h k =
    let n = sum_numerator left right in
    let d = sum_denominator left right in
    elim (Bool-cases (is_safe n && is_safe d)) [
      | inl safe ↦
          let (n_below, d_below) = safe_bounds n d safe in
          let (rate, e, lowest) =
            exact_rate-IsLowest n d (ground arith) (ground arith)
              (product_pos left.denominator right.denominator h k) in
          inl (n_below, d_below, (rate, ground (arith, safe, e), lowest))
      | inr unsafe ↦ inr (unsafe_bounds n d unsafe, ground (arith, unsafe))
    ]
