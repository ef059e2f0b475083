-- ===== src/Discord/Schedule.antt =====
-- The next evaluation of a schedule, src/domain/discord-update-schedule.ts. A `Date` is its number of
-- milliseconds. The bounds on the numbers of a policy are decoding; nothing here reads its catch-up policy.
pub mod Scan
pub mod Allowed
pub mod Daily
use baseballstattrack.Common.{
  ℕ, ◌+◌, ◌*◌, ◌/◌, zero, suc, Bool, true, false, not, ◌&&◌, ◌||◌, Option, none, some, List, [],
  ◌∷◌, ◌++◌, if◌then◌else◌, sort_by, ltb, leb, ◌==◌, nat_eq,
}

pub data CadenceMode : Type 0 where
  event_driven fixed_interval manual_only : CadenceMode

pub data CatchUpPolicy : Type 0 where
  skip latest_only : CatchUpPolicy

-- A window of the day, in minutes, or the quiet hours; the time zone is in `local_minute`.
pub record Window : Type 0 where
  pub enabled : Bool
  pub start_minute : ℕ
  pub end_minute : ℕ

pub record Digest : Type 0 where
  pub enabled : Bool
  pub minute : ℕ

pub record DiscordSchedulePolicy : Type 0 where
  pub cadence_mode : CadenceMode
  pub cadence_seconds : ℕ
  pub game_day_window : Window
  pub digest : Digest
  pub catch_up_policy : CatchUpPolicy

pub record EvaluationInput : Type 0 where
  pub enabled : Bool
  pub policy : DiscordSchedulePolicy
  pub quiet_hours : Window
  pub now : ℕ
  pub manual_refresh_requested_at : Option ℕ
  pub resume_catch_up : Bool

abbrev pub in_window : ℕ → ℕ → ℕ → Bool
in_window minute start_minute end_minute =
    if ltb start_minute end_minute
    then leb start_minute minute && ltb minute end_minute
    else leb start_minute minute || ltb minute end_minute

-- `new Date(Math.ceil((t + 1) / 60_000) * 60_000)`
abbrev pub next_minute : ℕ → ℕ
next_minute t = (t + 1 + 59999) / 60000 * 60000

-- The loop of `scan`, with its number of turns.
unfoldable pub scan_from : (ℕ → Bool) → ℕ → ℕ → Option ℕ
scan_from matches zero candidate = none
scan_from matches (suc turns) candidate = elim (matches candidate) [
  | true ↦ some candidate
  | false ↦ scan_from matches turns (candidate + 60000)
]

-- 8 * 24 * 60
abbrev pub scan_turns : ℕ
scan_turns = 11520

unfoldable pub scan : ℕ → (ℕ → Bool) → Option ℕ
scan start matches = scan_from matches scan_turns (next_minute start)

abbrev pub is_fixed_interval : CadenceMode → Bool
is_fixed_interval CadenceMode.fixed_interval = true
is_fixed_interval _ = false

-- The first of the candidates in the order of time.
abbrev pub earliest : List ℕ → Option ℕ
earliest [] = none
earliest (x ∷ xs) = some x

abbrev pub candidate_list : Option ℕ → List ℕ
candidate_list none = []
candidate_list (some candidate) = candidate ∷ []

-- `local_minute` is `Intl.DateTimeFormat` in the time zone of the quiet hours: the minute of the day
-- that a date falls in.
module _ (local_minute : ℕ → ℕ) where
  unfoldable pub allowed : ℕ → DiscordSchedulePolicy → Window → Bool
  allowed date policy quiet_hours =
      let minute = local_minute date in
      let window = policy.game_day_window in
      (not window.enabled || in_window minute window.start_minute window.end_minute)
      && (not quiet_hours.enabled
          || not (in_window minute quiet_hours.start_minute quiet_hours.end_minute))

  -- What `addAllowed` adds.
  unfoldable pub allowed_candidate : EvaluationInput → ℕ → Option ℕ
  unfolding scan
  allowed_candidate input start =
      if allowed start input.policy input.quiet_hours
      then some start
      else scan start (λ value. allowed value input.policy input.quiet_hours)

  unfoldable pub digest_candidate : EvaluationInput → Option ℕ
  unfolding scan
  digest_candidate input = scan input.now (λ candidate.
      local_minute candidate == input.policy.digest.minute
      && allowed candidate input.policy input.quiet_hours)

  abbrev pub requested_candidates : EvaluationInput → Option ℕ → List ℕ
  requested_candidates input none = []
  requested_candidates input (some requested) =
      candidate_list
        (allowed_candidate input (if ltb input.now requested then requested else input.now))

  abbrev pub manual_candidates : EvaluationInput → List ℕ
  manual_candidates input = requested_candidates input input.manual_refresh_requested_at

  abbrev pub catch_up_candidates : EvaluationInput → List ℕ
  catch_up_candidates input =
      if input.resume_catch_up then candidate_list (allowed_candidate input input.now) else []

  abbrev pub interval_candidates : EvaluationInput → List ℕ
  interval_candidates input =
      if is_fixed_interval input.policy.cadence_mode
      then candidate_list
          (allowed_candidate input (input.now + input.policy.cadence_seconds * 1000))
      else []

  abbrev pub digest_candidates : EvaluationInput → List ℕ
  digest_candidates input =
      if input.policy.digest.enabled then candidate_list (digest_candidate input) else []

  unfoldable pub candidates : EvaluationInput → List ℕ
  unfolding allowed_candidate digest_candidate
  candidates input =
      manual_candidates input
      ++ catch_up_candidates input
      ++ interval_candidates input
      ++ digest_candidates input

  unfoldable pub next_discord_evaluation : EvaluationInput → Option ℕ
  unfolding candidates
  next_discord_evaluation input =
      if input.enabled then earliest (sort_by (λ t. t) (candidates input)) else none
