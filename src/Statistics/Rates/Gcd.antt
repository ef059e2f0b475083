-- ===== src/Statistics/Rates/Gcd.antt =====
-- `greatestCommonDivisor` computes the greatest common divisor.
use Prim.Native.Nat.{◌∣◌}
use mathlib.Core.Path.{subst}
use mathlib.Core.WellFounded.{Acc}
use native.Mathlib.Nat
use baseballstattrack.Common.Descent.{below}
use baseballstattrack.Common.{ℕ, zero, suc, ◌*◌, ◌/◌, ◌%◌, ◌<◌, ◌≡◌, arith}
use baseballstattrack.Statistics.Rates.{remainder-lt, divisor_loop, greatest_common_divisor}

loop-dvd : (a b : ℕ) (w : Acc ◌<◌ b) → (divisor_loop a b w ∣ a) × (divisor_loop a b w ∣ b)
unfolding divisor_loop
loop-dvd a b (Acc.intro zero _) = (Nat.dvd_refl a, Nat.dvd-zero a)
loop-dvd a b (Acc.intro (suc c) next) =
    let (of_divisor, of_rest) =
      loop-dvd (suc c) (a % suc c) (next (a % suc c) (remainder-lt a c)) in
    ((Nat.dvd-mod_iff _ of_divisor).0 of_rest, of_divisor)

dvd-loop : (k a b : ℕ) (w : Acc ◌<◌ b) → k ∣ a → k ∣ b → k ∣ divisor_loop a b w
unfolding divisor_loop
dvd-loop k a b (Acc.intro zero _) of_a of_b = of_a
dvd-loop k a b (Acc.intro (suc c) next) of_a of_b =
    dvd-loop k (suc c) (a % suc c) (next (a % suc c) (remainder-lt a c)) of_b
      ((Nat.dvd-mod_iff k of_b).1 of_a)

pub gcd-dvd : (a b : ℕ) → (greatest_common_divisor a b ∣ a) × (greatest_common_divisor a b ∣ b)
unfolding greatest_common_divisor
gcd-dvd a b = loop-dvd a b (below (suc b) b (omega arith))

pub dvd-gcd : (k a b : ℕ) → k ∣ a → k ∣ b → k ∣ greatest_common_divisor a b
unfolding greatest_common_divisor
dvd-gcd k a b = dvd-loop k a b (below (suc b) b (omega arith))

pub gcd_pos : (a b : ℕ) → 0 < b → 0 < greatest_common_divisor a b
gcd_pos a b h = Nat.pos_of_dvd_of_pos (gcd-dvd a b).1 h

-- The quotients by it have no common divisor but one.
pub gcd-quotients :
    (a b : ℕ)
    → 0 < b
    → greatest_common_divisor (a / greatest_common_divisor a b) (b / greatest_common_divisor a b)
      ≡ 1
gcd-quotients a b h =
    let g = greatest_common_divisor a b in
    let r = greatest_common_divisor (a / g) (b / g) in
    let (of_a, of_b) = gcd-dvd a b in
    let (r_a, r_b) = gcd-dvd (a / g) (b / g) in
    let times_a : r * g ∣ a =
      subst (◌∣◌ (r * g)) (Nat.div-mul_cancel g of_a) (Nat.mul-dvd-mul_right r r_a g) in
    let times_b : r * g ∣ b =
      subst (◌∣◌ (r * g)) (Nat.div-mul_cancel g of_b) (Nat.mul-dvd-mul_right r r_b g) in
    Nat.eq-one_of_dvd-one (
      Nat.dvd_of_mul-dvd-mul_right r (gcd_pos a b h)
        (rw Nat.one-mul (dvd-gcd (r * g) a b times_a times_b)))
