-- ===== src/Discord/Schedule/Daily.antt =====
-- A schedule that repeats comes up.
use baseballstattrack.Common.{
  ℕ, ◌+◌, ◌-◌, ◌*◌, ◌/◌, ◌%◌, ◌≤◌, ◌<◌, ◌≡◌, refl, ap, ◌∙◌, inl, inr, Bool, true, false, ◌&&◌, none,
  some, List, [], ◌∷◌, ◌++◌, all, sort_by, ltb, leb, leb→le, nat_eq, arith, Bool-cases,
  Option-cases,
}
use baseballstattrack.Common.Sorting.{all-append, all-sort_by}
use baseballstattrack.Discord.Schedule.{
  EvaluationInput, DiscordSchedulePolicy, Window, next_minute, scan, scan_turns, is_fixed_interval,
  earliest, allowed, allowed_candidate, candidates, manual_candidates, catch_up_candidates,
  digest_candidates, interval_candidates, next_discord_evaluation,
}
use baseballstattrack.Discord.Schedule.Scan.{IsFirstMatch, scan_from-finds}
use baseballstattrack.Discord.Schedule.Allowed.{next_discord_evaluation-due}

-- The minute of the day in a zone that is `offset` minutes ahead throughout.
abbrev pub zone_minute : ℕ → ℕ → ℕ
zone_minute offset t = (t / 60000 + offset) % 1440

-- How many minutes after the minute `a` of the day its minute `m` comes.
abbrev wait : ℕ → ℕ → ℕ
wait a m = (m + 1440 - a) % 1440

wait-lt : (a m : ℕ) → wait a m < 1440
wait-lt a m = omega arith

next_minute-minute : (t k : ℕ) → (next_minute t + k * 60000) / 60000 ≡ t / 60000 + 1 + k
next_minute-minute t k = omega arith

after-wait : (a m : ℕ) → a < 1440 → m < 1440 → (a + wait a m) % 1440 ≡ m
after-wait a m h k = omega arith

minute-reached :
    (offset start m : ℕ)
    → m < 1440
    → (k : ℕ) × (k < 1440) × (zone_minute offset (next_minute start + k * 60000) ≡ m)
minute-reached offset start m h =
    let a = (start / 60000 + 1 + offset) % 1440 in
    let k = wait a m in
    let minutes = next_minute-minute start k in
    let reached = after-wait a m (omega arith) h in (k, wait-lt a m, omega arith)

allowed-minute :
    (local_minute : ℕ → ℕ) (d e : ℕ) (policy : DiscordSchedulePolicy) (quiet_hours : Window)
    → local_minute d ≡ local_minute e
    → allowed local_minute d policy quiet_hours ≡ allowed local_minute e policy quiet_hours
unfolding allowed
allowed-minute local_minute d e policy quiet_hours same = rw same refl

day_bound :
    (start found turn k : ℕ)
    → found ≡ next_minute start + turn * 60000
    → turn ≤ k
    → k < 1440
    → found ≤ start + 86400000
day_bound start found turn k at below within = omega arith

earliest-none : (ts : List ℕ) → earliest ts ≡ none → all (λ _. false) ts ≡ true
earliest-none [] e = refl
earliest-none (t ∷ ts) e = cc

all-middle :
    (p : ℕ → Bool) (xs zs : List ℕ) (t : ℕ)
    → all p (xs ++ (t ∷ []) ++ zs) ≡ (all p xs && p t && all p zs)
all-middle p xs zs t = ground (arith, all-append p (xs ++ t ∷ []) zs, all-append p xs (t ∷ []))

module _ (offset : ℕ) (input : EvaluationInput) (sample : ℕ)
    (sampled : allowed (zone_minute offset) sample input.policy input.quiet_hours ≡ true) where
  abbrev fits : ℕ → Bool
  fits t = allowed (zone_minute offset) t input.policy input.quiet_hours

  turn-le :
      (start found k : ℕ) (f : IsFirstMatch fits scan_turns (next_minute start) found)
      → fits (next_minute start + k * 60000) ≡ true
      → f.turn ≤ k
  turn-le start found k f opens = elim (Bool-cases (ltb k f.turn)) [
    | inl before ↦ absurd (ground (arith, f.none_before k (ground (arith, before)), opens))
    | inr by_then ↦ ground (arith, by_then)
  ]

  -- In a zone without changes, a date that is allowed comes within a day of any start.
  allowed_candidate-found :
      (start : ℕ)
      → (t : ℕ) × (allowed_candidate (zone_minute offset) input start ≡ some t)
        × (t ≤ start + 86400000)
  unfolding allowed_candidate scan
  allowed_candidate-found start =
      let (k, within, minute) =
        minute-reached offset start (zone_minute offset sample) (omega arith) in
      let opens : fits (next_minute start + k * 60000) ≡ true =
        allowed-minute (zone_minute offset) (next_minute start + k * 60000) sample input.policy
          input.quiet_hours minute
        ∙ sampled in
      elim (Bool-cases (fits start)) [
        | inl now ↦ (start, ground (arith, now), omega arith)
        | inr later ↦ elim (scan_from-finds fits scan_turns (next_minute start)) [
          | inl (found, e, f) ↦ (
            found,
            ground (arith, later, e),
            day_bound start found f.turn k f.at_turn (turn-le start found k f opens) within,
          )
          | inr (_, never) ↦ absurd (ground (arith, never k (omega arith), opens))
        ]
      ]

  interval_listed :
      (t : ℕ)
      → is_fixed_interval input.policy.cadence_mode ≡ true
      → allowed_candidate
          (zone_minute offset)
          input
          (input.now + input.policy.cadence_seconds * 1000)
        ≡ some t
      → interval_candidates (zone_minute offset) input ≡ t ∷ []
  interval_listed t fixed e = ground (arith, fixed, e)

  all-candidates :
      (p : ℕ → Bool) (t : ℕ)
      → interval_candidates (zone_minute offset) input ≡ t ∷ []
      → all p (candidates (zone_minute offset) input) ≡ (
          all p (
            manual_candidates (zone_minute offset) input
            ++ catch_up_candidates (zone_minute offset) input)
          && p t
          && all p (digest_candidates (zone_minute offset) input))
  unfolding candidates
  all-candidates p t listed =
      let asked =
        manual_candidates (zone_minute offset) input
        ++ catch_up_candidates (zone_minute offset) input in
      let digests = digest_candidates (zone_minute offset) input in
      ap (λ xs. all p (asked ++ xs ++ digests)) listed ∙ all-middle p asked digests t

  -- In a time zone that keeps its offset, an enabled schedule at a fixed interval, whose windows admit
  -- any date at all, is evaluated again: at the latest one day after its interval has passed.
  pub next_discord_evaluation-daily :
      input.enabled ≡ true
      → is_fixed_interval input.policy.cadence_mode ≡ true
      → (t : ℕ) × (next_discord_evaluation (zone_minute offset) input ≡ some t)
        × (t ≤ input.now + input.policy.cadence_seconds * 1000 + 86400000)
  unfolding next_discord_evaluation
  next_discord_evaluation-daily on fixed =
      let (c, found, bound) =
        allowed_candidate-found (input.now + input.policy.cadence_seconds * 1000) in
      let listed = interval_listed c fixed found in
      let all_of = candidates (zone_minute offset) input in
      let sorted = sort_by (λ x. x) all_of in
      elim (Option-cases (earliest sorted)) [
        | inl nothing ↦
            let empty = earliest-none sorted nothing in
            let kept = all-sort_by (λ x. x) (λ _. false) all_of in
            absurd (ground (arith, empty, kept, all-candidates (λ _. false) c listed))
        | inr (t, e) ↦
            let returned : next_discord_evaluation (zone_minute offset) input ≡ some t =
              ground (arith, on, e) in
            let (_, _, _, first) =
              next_discord_evaluation-due (zone_minute offset) input t returned in
            let before : leb t c ≡ true =
              ground (arith, first, all-candidates (λ x. leb t x) c listed) in
            let sooner = leb→le t c before in (t, returned, omega arith)
      ]
