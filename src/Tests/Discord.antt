-- ===== src/Tests/Discord.antt =====
-- A schedule, a retry and a time of day.
use baseballstattrack.Common.{
  ℕ, ◌+◌, ◌*◌, ◌≤◌, ◌<◌, ◌≡◌, ◌⊎◌, refl, true, false, none, some, List, [], ◌∷◌, all, leb, get_or,
  arith,
}
use baseballstattrack.Discord.Clock.{minute_of_day, time_of_day, minute, out_of_range}
use baseballstattrack.Discord.Clock.RoundTrip.{minute_of_day-time_of_day, time_of_day-minute_of_day}
use baseballstattrack.Discord.Retry.{
  max_attempts, configured_delay, smaller, discord_update_retry_at, discord_update_retry_at-bounds,
}
use baseballstattrack.Discord.Schedule.{
  CadenceMode, CatchUpPolicy, Window, EvaluationInput, allowed, allowed_candidate, digest_candidate,
  candidates, scan, scan_from, next_discord_evaluation,
}
use baseballstattrack.Discord.Schedule.Scan.{IsFirstMatch, NoMatch, scan_from-finds}
use baseballstattrack.Discord.Schedule.Allowed.{next_discord_evaluation-due}
use baseballstattrack.Discord.Schedule.Daily.{zone_minute, next_discord_evaluation-daily}

-- Nothing between 0:00 and 8:00, a digest at 9:00, and an update every ten minutes.
abbrev night : Window
night = record { enabled = true; start_minute = 0; end_minute = 480 }

abbrev input : EvaluationInput
input = record {
  enabled = true;
  policy = record {
    cadence_mode = CadenceMode.fixed_interval;
    cadence_seconds = 600;
    game_day_window = record { enabled = false; start_minute = 0; end_minute = 1 };
    digest = record { enabled = false; minute = 540 };
    catch_up_policy = CatchUpPolicy.latest_only;
  };
  quiet_hours = night;
  now = 28_000_000;
  manual_refresh_requested_at = none;
  resume_catch_up = true;
}

-- The catch-up and the interval wait for 8:00.
waits_for_morning : next_discord_evaluation (zone_minute 0) input ≡ some 28_800_000
unfolding next_discord_evaluation candidates allowed_candidate digest_candidate allowed scan
    scan_from
waits_for_morning = refl

next_discord_evaluation-due_example :
    (input.enabled ≡ true)
    × (input.now ≤ 28_800_000)
    × (allowed (zone_minute 0) 28_800_000 input.policy input.quiet_hours ≡ true)
    × (all (λ c. leb 28_800_000 c) (candidates (zone_minute 0) input) ≡ true)
unfolding next_discord_evaluation candidates allowed_candidate digest_candidate allowed scan
    scan_from
next_discord_evaluation-due_example =
    next_discord_evaluation-due (zone_minute 0) input 28_800_000 refl

next_discord_evaluation-daily_example :
    (t : ℕ) × (next_discord_evaluation (zone_minute 0) input ≡ some t)
    × (t ≤ input.now + input.policy.cadence_seconds * 1000 + 86_400_000)
unfolding allowed
next_discord_evaluation-daily_example =
    next_discord_evaluation-daily 0 input 36_000_000 refl refl refl

scan_from-finds_example :
    ((found : ℕ) × (scan_from (λ t. leb 200_000 t) 5 60_000 ≡ some found)
      × IsFirstMatch (λ t. leb 200_000 t) 5 60_000 found)
    ⊎ (scan_from (λ t. leb 200_000 t) 5 60_000 ≡ none) × NoMatch (λ t. leb 200_000 t) 5 60_000
scan_from-finds_example = scan_from-finds (λ t. leb 200_000 t) 5 60_000

discord_update_retry_at-bounds_example :
    (max_attempts ≤ 3) × (discord_update_retry_at 3 1000 (some 900) ≡ none)
    ⊎ (at : ℕ) × (discord_update_retry_at 3 1000 (some 900) ≡ some at)
      × (3 < max_attempts)
      × (1000 + configured_delay 3 * 1000 ≤ at)
      × (at ≤ 1000 + 86400000)
      × (1000 + smaller 86400 (get_or (some 900) 0) * 1000 ≤ at)
discord_update_retry_at-bounds_example = discord_update_retry_at-bounds 3 1000 (some 900)

-- 07:05
abbrev early : List ℕ
early = 48 ∷ 55 ∷ 58 ∷ 48 ∷ 53 ∷ []

minute_of_day-time_of_day_example : minute_of_day (time_of_day 754) ≡ minute 754
minute_of_day-time_of_day_example = minute_of_day-time_of_day 754 (omega arith)

time_of_day-minute_of_day_example : (425 < 1440) × (time_of_day 425 ≡ early)
unfolding minute_of_day
time_of_day-minute_of_day_example = time_of_day-minute_of_day early 425 refl

no_hour : minute_of_day (50 ∷ 52 ∷ 58 ∷ 48 ∷ 48 ∷ []) ≡ out_of_range
unfolding minute_of_day
no_hour = refl
