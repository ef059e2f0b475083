-- ===== src/Discord/Clock/RoundTrip.antt =====
-- Minutes of the day and their texts.
use baseballstattrack.Common.{
  ℕ, ◌+◌, ◌*◌, ◌/◌, ◌%◌, ◌<◌, ◌≡◌, refl, inl, inr, Bool-cases, ap, ◌∙◌, true, ◌&&◌, ◌||◌, List, [],
  ◌∷◌, ltb, ◌==◌, nat_eq, eq_of_beq, arith,
}
use baseballstattrack.Discord.Clock.{
  zero_digit, colon, is_digit, digit_value, minute, minute_of, minute_of_day, time_of_day,
}
use baseballstattrack.Discord.Clock.Digits.{two_digits-value}

abbrev shown : ℕ → ℕ → List ℕ
shown h m =
    (zero_digit + h / 10)
    ∷ (zero_digit + h % 10)
    ∷ colon
    ∷ (zero_digit + m / 10)
    ∷ (zero_digit + m % 10)
    ∷ []

time_of_day-shown : (n : ℕ) → n < 1440 → time_of_day n ≡ shown (n / 60) (n % 60)
unfolding time_of_day
time_of_day-shown n h =
    rw (two_digits-value (n / 60) (omega arith), two_digits-value (n % 60) (omega arith)) refl

is_digit-digit : (d : ℕ) → d < 10 → is_digit (zero_digit + d) ≡ true
is_digit-digit d h = ground arith

digits-value :
    (n : ℕ) → digit_value (zero_digit + n / 10) * 10 + digit_value (zero_digit + n % 10) ≡ n
digits-value n = omega arith

shown-value :
    (h m : ℕ)
    → h < 24
    → m < 60
    → minute_of
        (digit_value (zero_digit + h / 10) * 10 + digit_value (zero_digit + h % 10))
        (digit_value (zero_digit + m / 10) * 10 + digit_value (zero_digit + m % 10))
      ≡ minute (h * 60 + m)
shown-value h m small less = rw (digits-value h, digits-value m) (ground arith)

minute_of_day-shown : (h m : ℕ) → h < 24 → m < 60 → minute_of_day (shown h m) ≡ minute (h * 60 + m)
unfolding minute_of_day
minute_of_day-shown h m small less =
    rw
      (
        is_digit-digit (h / 10) (omega arith),
        is_digit-digit (h % 10) (omega arith),
        is_digit-digit (m / 10) (omega arith),
        is_digit-digit (m % 10) (omega arith),
      )
      (shown-value h m small less)

-- The text of a minute of the day is read back as that minute.
pub minute_of_day-time_of_day : (n : ℕ) → n < 1440 → minute_of_day (time_of_day n) ≡ minute n
minute_of_day-time_of_day n h =
    ap minute_of_day (time_of_day-shown n h)
    ∙ minute_of_day-shown (n / 60) (n % 60) (omega arith) (omega arith)
    ∙ ap minute (omega arith)

units_of : (c : ℕ) → is_digit c ≡ true → zero_digit + digit_value c ≡ c
units_of c h = ground arith

digit_value-lt : (c : ℕ) → is_digit c ≡ true → digit_value c < 10
digit_value-lt c h = ground arith

-- What a text of five characters that is read as a minute consists of.
read_text :
    (a b separator c d n : ℕ)
    → minute_of_day (a ∷ b ∷ separator ∷ c ∷ d ∷ []) ≡ minute n
    → (is_digit a ≡ true)
      × (is_digit b ≡ true)
      × (separator ≡ colon)
      × (is_digit c ≡ true)
      × (is_digit d ≡ true)
      × (minute_of (digit_value a * 10 + digit_value b) (digit_value c * 10 + digit_value d)
          ≡ minute n)
unfolding minute_of_day
read_text a b separator c d n e =
    let digits = is_digit a && is_digit b && separator == colon && is_digit c && is_digit d in
    elim (Bool-cases digits) [
      | inl all_fit ↦ (
        ground (arith, all_fit),
        ground (arith, all_fit),
        eq_of_beq separator colon (ground (arith, all_fit)),
        ground (arith, all_fit),
        ground (arith, all_fit),
        ground (arith, all_fit, e),
      )
      | inr unfit ↦ absurd (ground (arith, unfit, e))
    ]

read_minute : (h m n : ℕ) → minute_of h m ≡ minute n → (h < 24) × (m < 60) × (n ≡ h * 60 + m)
read_minute h m n e = elim (Bool-cases (ltb 23 h || ltb 59 m)) [
  | inl large ↦ absurd (ground (arith, large, e))
  | inr small ↦ (ground (arith, small), ground (arith, small), ground (arith, small, e))
]

tens : (t u : ℕ) → u < 10 → (t * 10 + u) / 10 ≡ t
tens t u h = omega arith

units : (t u : ℕ) → u < 10 → (t * 10 + u) % 10 ≡ u
units t u h = omega arith

shown-text :
    (a b c d : ℕ)
    → is_digit a ≡ true
    → is_digit b ≡ true
    → is_digit c ≡ true
    → is_digit d ≡ true
    → shown (digit_value a * 10 + digit_value b) (digit_value c * 10 + digit_value d)
      ≡ a ∷ b ∷ colon ∷ c ∷ d ∷ []
shown-text a b c d digit_a digit_b digit_c digit_d =
    let lt_b = digit_value-lt b digit_b in
    let lt_d = digit_value-lt d digit_d in
    rw
      (
        tens (digit_value a) (digit_value b) lt_b,
        units (digit_value a) (digit_value b) lt_b,
        tens (digit_value c) (digit_value d) lt_d,
        units (digit_value c) (digit_value d) lt_d,
        units_of a digit_a,
        units_of b digit_b,
        units_of c digit_c,
        units_of d digit_d,
      )
      refl

-- A text that is read as a minute of the day is the text of that minute.
pub time_of_day-minute_of_day :
    (text : List ℕ) (n : ℕ) → minute_of_day text ≡ minute n → (n < 1440) × (time_of_day n ≡ text)
unfolding minute_of_day
time_of_day-minute_of_day (a ∷ b ∷ separator ∷ c ∷ d ∷ []) n e =
    let (digit_a, digit_b, colon_there, digit_c, digit_d, valued) =
      read_text a b separator c d n e in
    let h = digit_value a * 10 + digit_value b in
    let m = digit_value c * 10 + digit_value d in
    let (small, less, value) = read_minute h m n valued in
    let hours : n / 60 ≡ h = omega arith in
    let minutes : n % 60 ≡ m = omega arith in
    (
      omega arith,
      time_of_day-shown n (omega arith)
          ∙ rw (hours, minutes, colon_there) (shown-text a b c d digit_a digit_b digit_c digit_d),
    )
time_of_day-minute_of_day [] n e = cc
time_of_day-minute_of_day (_ ∷ []) n e = cc
time_of_day-minute_of_day (_ ∷ _ ∷ []) n e = cc
time_of_day-minute_of_day (_ ∷ _ ∷ _ ∷ []) n e = cc
time_of_day-minute_of_day (_ ∷ _ ∷ _ ∷ _ ∷ []) n e = cc
time_of_day-minute_of_day (_ ∷ _ ∷ _ ∷ _ ∷ _ ∷ _ ∷ _) n e = cc
