-- ===== src/Discord/Clock/Digits.antt =====
-- Two digits, printed.
use mathlib.Core.WellFounded.{Acc}
use baseballstattrack.Common.Descent.{below}
use baseballstattrack.Common.{
  ℕ, suc, ◌+◌, ◌/◌, ◌%◌, ◌<◌, ◌≡◌, refl, ap, inl, inr, false, List, [], ◌∷◌, ◌++◌, ltb, arith,
  Bool-cases,
}
use baseballstattrack.Discord.Clock.{decimal, two_digits, zero_digit, quotient-lt}

decimal-small : (n : ℕ) (a : Acc ◌<◌ n) → n < 10 → decimal n a ≡ (zero_digit + n) ∷ []
unfolding decimal
decimal-small n (Acc.intro _ next) h = ground arith

decimal-tens :
    (n : ℕ) (a : Acc ◌<◌ n)
    → ltb n 10 ≡ false
    → n < 100
    → decimal n a ≡ (zero_digit + n / 10) ∷ (zero_digit + n % 10) ∷ []
unfolding decimal
decimal-tens n (Acc.intro _ next) big h =
    elim (Bool-cases (ltb n 10))
      as (λ x.
        elim x as (λ _. List ℕ) [
          | inl small ↦ (zero_digit + n) ∷ []
          | inr large ↦
              decimal (n / 10) (next (n / 10) (quotient-lt n large)) ++ (zero_digit + n % 10) ∷ []
        ]
        ≡ (zero_digit + n / 10) ∷ (zero_digit + n % 10) ∷ []) [
          | inl small ↦ absurd (ground (arith, big, small))
          | inr large ↦
              ap (λ ds. ds ++ (zero_digit + n % 10) ∷ [])
                (decimal-small (n / 10) (next (n / 10) (quotient-lt n large)) (ground arith))
        ]

-- A number below a hundred is printed as its tens and its units.
pub two_digits-value :
    (n : ℕ) → n < 100 → two_digits n ≡ (zero_digit + n / 10) ∷ (zero_digit + n % 10) ∷ []
unfolding two_digits
two_digits-value n h = elim (Bool-cases (ltb n 10)) [
  | inl small ↦
      let one = decimal-small n (below (suc n) n (omega arith)) (ground arith) in
      let no_tens : n / 10 ≡ 0 = ground arith in
      let units : n % 10 ≡ n = ground arith in rw (one, no_tens, units) refl
  | inr large ↦ rw (decimal-tens n (below (suc n) n (omega arith)) large h) refl
]
