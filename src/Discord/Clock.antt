-- ===== src/Discord/Clock.antt =====
-- `minuteOfDay` and `timeOfDay`, src/domain/discord-cadence.ts. A text is the list of its UTF-16 code
-- units.
pub mod Digits
pub mod RoundTrip
use mathlib.Core.WellFounded.{Acc}
use baseballstattrack.Common.Descent.{below}
use baseballstattrack.Common.{
  ℕ, zero, suc, ◌+◌, ◌-◌, ◌*◌, ◌/◌, ◌%◌, ◌<◌, ◌≡◌, refl, inl, inr, Bool, true, false, not, ◌&&◌,
  ◌||◌, List, [], ◌∷◌, ◌++◌, if◌then◌else◌, ltb, leb, ◌==◌, nat_eq, length, arith, Bool-cases,
}

abbrev pub zero_digit : ℕ
zero_digit = 48

abbrev pub colon : ℕ
colon = 58

-- `\d`
abbrev pub is_digit : ℕ → Bool
is_digit c = leb 48 c && leb c 57

abbrev pub digit_value : ℕ → ℕ
digit_value c = c - 48

-- What `minuteOfDay` returns or throws.
pub data MinuteResult : Type 0 where
  minute : ℕ → MinuteResult
  malformed out_of_range : MinuteResult

abbrev pub minute_of : ℕ → ℕ → MinuteResult
minute_of hour minutes =
    if ltb 23 hour || ltb 59 minutes then out_of_range else minute (hour * 60 + minutes)

unfoldable pub minute_of_day : List ℕ → MinuteResult
minute_of_day (a ∷ b ∷ separator ∷ c ∷ d ∷ []) =
    if is_digit a && is_digit b && separator == colon && is_digit c && is_digit d
    then minute_of (digit_value a * 10 + digit_value b) (digit_value c * 10 + digit_value d)
    else malformed
minute_of_day _ = malformed

pub quotient-lt : (n : ℕ) → ltb n 10 ≡ false → n / 10 < n
quotient-lt n h = ground arith

-- `String(n)`
unfoldable pub decimal : (n : ℕ) → Acc ◌<◌ n → List ℕ
decimal n (Acc.intro _ next) = elim (Bool-cases (ltb n 10)) [
  | inl small ↦ (zero_digit + n) ∷ []
  | inr large ↦ decimal (n / 10) (next (n / 10) (quotient-lt n large)) ++ (zero_digit + n % 10) ∷ []
]

-- `String(n).padStart(2, "0")`
abbrev pub pad_two : List ℕ → List ℕ
pad_two [] = zero_digit ∷ zero_digit ∷ []
pad_two (c ∷ []) = zero_digit ∷ c ∷ []
pad_two (c ∷ d ∷ rest) = c ∷ d ∷ rest

unfoldable pub two_digits : ℕ → List ℕ
unfolding decimal below
two_digits n = pad_two (decimal n (below (suc n) n (omega arith)))

unfoldable pub time_of_day : ℕ → List ℕ
unfolding two_digits
time_of_day n = two_digits (n / 60) ++ colon ∷ two_digits (n % 60)
