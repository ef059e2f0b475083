-- ===== src/Discord/Schedule/Allowed.antt =====
-- When the next evaluation may be.
use baseballstattrack.Common.{
  ℕ, ◌+◌, ◌*◌, ◌≤◌, ◌<◌, ◌≡◌, refl, sym, ◌∙◌, inl, inr, Bool, true, ◌&&◌, Option, none, some, List,
  [], ◌∷◌, ◌++◌, all, if◌then◌else◌, sort_by, ltb, leb, leb→le, ◌==◌, nat_eq, arith, Bool-cases,
}
use baseballstattrack.Common.Sorting.{all-append, all-sort_by, in_order, sort_by-in_order}
use baseballstattrack.Discord.Schedule.{
  EvaluationInput, next_minute, scan, scan_turns, is_fixed_interval, earliest, candidate_list,
  allowed, allowed_candidate, digest_candidate, requested_candidates, manual_candidates,
  catch_up_candidates, interval_candidates, digest_candidates, candidates, next_discord_evaluation,
}
use baseballstattrack.Discord.Schedule.Scan.{scan_from-finds}

pub next_minute-lt : (t : ℕ) → t < next_minute t
next_minute-lt t = omega arith

-- What `scan` returns matches, and is later than where it starts.
pub scan-some :
    (start : ℕ) (matches : ℕ → Bool) (found : ℕ)
    → scan start matches ≡ some found
    → (matches found ≡ true) × (start < found)
unfolding scan
scan-some start matches found e = elim (scan_from-finds matches scan_turns (next_minute start)) [
  | inl (at, returned, f) ↦
      let same : at ≡ found = ground (arith, e, returned) in
      let after = next_minute-lt start in
      let place = f.at_turn in (rw (← same) f.found_matches, omega arith)
  | inr (returned, _) ↦ absurd (ground (arith, e, returned))
]

module _ (local_minute : ℕ → ℕ) (input : EvaluationInput) where
  -- Not before now, and in the windows.
  abbrev pub is_due : ℕ → Bool
  is_due t = leb input.now t && allowed local_minute t input.policy input.quiet_hours

  candidate_list-due :
      (o : Option ℕ)
      → ((t : ℕ) → o ≡ some t → is_due t ≡ true)
      → all is_due (candidate_list o) ≡ true
  candidate_list-due none h = refl
  candidate_list-due (some t) h = ground (arith, h t refl)

  allowed_candidate-due :
      (start t : ℕ)
      → input.now ≤ start
      → allowed_candidate local_minute input start ≡ some t
      → is_due t ≡ true
  unfolding allowed_candidate
  allowed_candidate-due start t h e =
      elim (Bool-cases (allowed local_minute start input.policy input.quiet_hours)) [
        | inl now ↦ let same : start ≡ t = ground (arith, now, e) in ground (arith, now, h, same)
        | inr wait ↦
            let (fits, after) =
              scan-some start (λ value. allowed local_minute value input.policy input.quiet_hours) t
                (ground (arith, wait, e)) in
            ground (arith, fits, after, h)
      ]

  digest_candidate-due : (t : ℕ) → digest_candidate local_minute input ≡ some t → is_due t ≡ true
  unfolding digest_candidate
  digest_candidate-due t e =
      let (fits, after) =
        scan-some input.now
          (λ c.
            local_minute c == input.policy.digest.minute
            && allowed local_minute c input.policy input.quiet_hours)
          t e in
      ground (arith, fits, after)

  allowed_list-due :
      (start : ℕ)
      → input.now ≤ start
      → all is_due (candidate_list (allowed_candidate local_minute input start)) ≡ true
  allowed_list-due start h =
      candidate_list-due (allowed_candidate local_minute input start)
        (λ t e. allowed_candidate-due start t h e)

  later_of : (a b : ℕ) → a ≤ (if ltb a b then b else a)
  later_of a b = ground arith

  manual-due :
      (requested : Option ℕ) → all is_due (requested_candidates local_minute input requested) ≡ true
  manual-due none = refl
  manual-due (some asked) =
      allowed_list-due (if ltb input.now asked then asked else input.now) (later_of input.now asked)

  catch_up-due : all is_due (catch_up_candidates local_minute input) ≡ true
  catch_up-due = elim (Bool-cases input.resume_catch_up) [
    | inl resumed ↦ simp resumed (allowed_list-due input.now (omega arith))
    | inr not_resumed ↦ simp not_resumed refl
  ]

  interval-due : all is_due (interval_candidates local_minute input) ≡ true
  interval-due = elim (Bool-cases (is_fixed_interval input.policy.cadence_mode)) [
    | inl fixed ↦
        simp fixed
          (allowed_list-due (input.now + input.policy.cadence_seconds * 1000) (omega arith))
    | inr other ↦ simp other refl
  ]

  digest-due : all is_due (digest_candidates local_minute input) ≡ true
  digest-due = elim (Bool-cases input.policy.digest.enabled) [
    | inl sent ↦
        simp sent (candidate_list-due (digest_candidate local_minute input) digest_candidate-due)
    | inr not_sent ↦ simp not_sent refl
  ]

  all-both :
      (xs ys : List ℕ) → all is_due xs ≡ true → all is_due ys ≡ true → all is_due (xs ++ ys) ≡ true
  all-both xs ys one two = ground (arith, all-append is_due xs ys, one, two)

  candidates-due : all is_due (candidates local_minute input) ≡ true
  unfolding candidates
  candidates-due =
      all-both _ (digest_candidates local_minute input)
        (all-both _ (interval_candidates local_minute input)
          (all-both (manual_candidates local_minute input) (catch_up_candidates local_minute input)
            (manual-due input.manual_refresh_requested_at) catch_up-due)
          interval-due)
        digest-due

  earliest-due :
      (ts : List ℕ) (t : ℕ)
      → all is_due ts ≡ true
      → in_order (λ x. x) ts ≡ true
      → earliest ts ≡ some t
      → (is_due t ≡ true) × (all (λ x. leb t x) ts ≡ true)
  earliest-due [] t h k e = cc
  earliest-due (x ∷ xs) t h k e =
      let same : x ≡ t = ground (arith, e) in (ground (arith, h, same), ground (arith, k, same))

  -- An evaluation is scheduled only if the schedule is enabled, never for a time before now or outside
  -- the windows, and never for a time later than a candidate.
  pub next_discord_evaluation-due :
      (t : ℕ)
      → next_discord_evaluation local_minute input ≡ some t
      → (input.enabled ≡ true)
        × (input.now ≤ t)
        × (allowed local_minute t input.policy input.quiet_hours ≡ true)
        × (all (λ c. leb t c) (candidates local_minute input) ≡ true)
  unfolding next_discord_evaluation
  next_discord_evaluation-due t e =
      let sorted = sort_by (λ x. x) (candidates local_minute input) in
      elim (Bool-cases input.enabled) [
        | inl on ↦
            let found : earliest sorted ≡ some t = ground (arith, on, e) in
            let (due, first) =
              earliest-due sorted t
                (all-sort_by (λ x. x) is_due (candidates local_minute input) ∙ candidates-due)
                (sort_by-in_order (λ x. x) (candidates local_minute input)) found in
            (
              on,
              leb→le input.now t (ground (arith, due)),
              ground (arith, due),
              sym (all-sort_by (λ x. x) (λ c. leb t c) (candidates local_minute input)) ∙ first,
            )
        | inr off ↦ absurd (ground (arith, off, e))
      ]
