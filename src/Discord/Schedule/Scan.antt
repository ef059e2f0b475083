-- ===== src/Discord/Schedule/Scan.antt =====
-- What `scan` finds.
use baseballstattrack.Common.{
  ℕ, zero, suc, ◌+◌, ◌*◌, ◌<◌, ◌≡◌, refl, inl, inr, ◌⊎◌, Bool, true, false, none, some, arith,
  Bool-cases,
}
use baseballstattrack.Discord.Schedule.{scan_from}

-- The first of the minutes `first`, `first + 60000`, … that matches, among so many.
pub record IsFirstMatch (matches : ℕ → Bool) (turns first found : ℕ) : Type 0 where
  pub turn : ℕ
  pub in_time : turn < turns
  pub at_turn : found ≡ first + turn * 60000
  pub found_matches : matches found ≡ true
  pub none_before : (k : ℕ) → k < turn → matches (first + k * 60000) ≡ false

abbrev pub NoMatch : (ℕ → Bool) → ℕ → ℕ → Type 0
NoMatch matches turns first = (k : ℕ) → k < turns → matches (first + k * 60000) ≡ false

here : (first : ℕ) → first ≡ first + 0 * 60000
here first = omega arith

later : (first k : ℕ) → first + 60000 + k * 60000 ≡ first + suc k * 60000
later first k = omega arith

-- A minute after the first one that does not match.
not_before :
    (matches : ℕ → Bool) (turns first : ℕ)
    → matches first ≡ false
    → NoMatch matches turns (first + 60000)
    → NoMatch matches (suc turns) first
not_before matches turns first differs rest zero h = rw (← here first) differs
not_before matches turns first differs rest (suc k) h = rw (← later first k) (rest k (omega arith))

-- The loop of `scan` returns the first of the minutes it looks at that matches; it returns nothing only
-- if none of them matches.
pub scan_from-finds :
    (matches : ℕ → Bool) (turns first : ℕ)
    → ((found : ℕ) × (scan_from matches turns first ≡ some found)
        × IsFirstMatch matches turns first found)
      ⊎ (scan_from matches turns first ≡ none) × NoMatch matches turns first
unfolding scan_from
scan_from-finds matches zero first = inr (refl, λ k h. absurd (omega arith))
scan_from-finds matches (suc turns) first = elim (Bool-cases (matches first)) [
  | inl now ↦ inl (
    first,
    ground (arith, now),
    record {
      turn = 0;
      in_time = omega arith;
      at_turn = here first;
      found_matches = now;
      none_before = λ k h. absurd (omega arith);
    },
  )
  | inr differs ↦ elim (scan_from-finds matches turns (first + 60000)) [
    | inl (found, e, f) ↦ inl (
      found,
      ground (arith, differs, e),
      record {
        turn = suc f.turn;
        in_time = (let h = f.in_time in omega arith);
        at_turn = (let h = f.at_turn in omega arith);
        found_matches = f.found_matches;
        none_before = not_before matches f.turn first differs f.none_before;
      },
    )
    | inr (e, none_found) ↦
        inr (ground (arith, differs, e), not_before matches turns first differs none_found)
  ]
]
