-- ===== src/Statistics/Steps.antt =====
-- The loop of `deriveGameStatistics` over the steps of the replay,
-- src/domain/statistics/game-statistics.ts.
pub mod Defense
pub mod Balance
pub mod Bodies
pub mod Totals
pub mod Score
use baseballstattrack.Common.{
  ℕ, ◌+◌, Bool, true, false, not, ◌&&◌, ◌||◌, Option, none, some, List, [], ◌∷◌, ◌++◌, map, length,
  if◌then◌else◌, filter, ◌==◌, nat_eq, Dict, Result, ok, err, reject, ◌>>=◌, ◌>>◌, type_error,
  StatisticErrorCode,
}
use baseballstattrack.Events.Enums.{
  GameSide, home, away, Outcome, FieldingCreditKind, RunnerOutCause, StealTarget, StealResult,
  PlayType,
}
use baseballstattrack.Events.Equality.{outcome_eq, credit_eq, play_type_eq}
use baseballstattrack.Events.State.{at_side, AcceptedSetup}
use baseballstattrack.Events.Bodies.{
  RunnerMovement, FieldingCredit, PlateAppearance, RunnerOut, StolenBaseAttempt, RunnerPlay,
  PitchingChange, PlayBody, EventBody, play, game_started, plate_appearance_recorded,
  runner_advance_recorded, runner_out_recorded, stolen_base_attempt_recorded, runner_play_recorded,
  pitching_change_made,
}
use baseballstattrack.Events.Schema.{is_out, is_error_credit, steal_scores}
use baseballstattrack.Engine.Movement.{out_movements}
use baseballstattrack.Engine.Plays.{stolen_movement}
use baseballstattrack.Engine.Replay.{EffectiveReplayStep}
use baseballstattrack.Statistics.Counters.{BattingCounters, PitchingCounters, FieldingCounters}
use baseballstattrack.Statistics.Tally.{
  Tallies, opposite, step_batting_side, credit_batter, credit_pitcher, credit_fielder,
  record_inning, apply_counting_run, plus_if,
}
use baseballstattrack.Statistics.Plays.{unique, batter_outcome, pitcher_outcome, credit_out_path}
use baseballstattrack.Statistics.Credits.{
  all_out_fielders, credit_defense, credit_fielding, credit_multiple_play, credit_out_paths,
  credit_runs, field_credit, multiple_play, out_fielders, participants,
}

-- The source creates both entries and then refuses an interference.
unfoldable pub tally_plate_appearance :
    Dict ℕ GameSide → EffectiveReplayStep → PlateAppearance → Tallies → Result Tallies
tally_plate_appearance index step p t =
    let outs = out_movements p.movements in
    do
      side ← step_batting_side step
      touched ← record_inning step side t
      batted ← credit_batter index p.batter_id side (batter_outcome p.outcome) touched
      pitched ← credit_pitcher index p.pitcher_id (opposite side) (pitcher_outcome p.outcome) batted
      reject (p.outcome == Outcome.interference) StatisticErrorCode.unsupported_ruleset
      scored ← credit_runs index step side (some p.batter_id) p.movements pitched
      retired ←
          credit_pitcher index p.pitcher_id (opposite side)
            (λ c. record c { outs_recorded = c.outs_recorded + length outs }) scored
      fielded ← credit_defense index (opposite side) p.fielding_credits outs retired
      (if length outs == 2 || length outs == 3
          then credit_multiple_play index (opposite side) (length outs)
              (participants p.fielding_credits outs) fielded
          else ok fielded)

unfoldable pub tally_runner_advance :
    Dict ℕ GameSide → EffectiveReplayStep → RunnerMovement → Tallies → Result Tallies
unfolding apply_counting_run
tally_runner_advance index step m t = do
  side ← step_batting_side step
  touched ← record_inning step side t
  apply_counting_run index step m side none touched

-- The outs of the pitcher who is active before the step.
abbrev pub retire : Dict ℕ GameSide → EffectiveReplayStep → GameSide → ℕ → Tallies → Result Tallies
retire index step side outs t =
    credit_pitcher index (at_side step.before.active_pitcher side) side
      (λ c. record c { outs_recorded = c.outs_recorded + outs }) t

abbrev pub credit_caught_stealing : Dict ℕ GameSide → Bool → ℕ → GameSide → Tallies → Result Tallies
credit_caught_stealing index caught runner_id side t =
    if caught
    then credit_batter index runner_id side
        (λ c. record c { caught_stealing = c.caught_stealing + 1 }) t
    else ok t

abbrev pub credit_stolen_base : Dict ℕ GameSide → Bool → ℕ → GameSide → Tallies → Result Tallies
credit_stolen_base index stolen runner_id side t =
    if stolen
    then credit_batter index runner_id side (λ c. record c { stolen_bases = c.stolen_bases + 1 }) t
    else ok t

abbrev pub is_caught_stealing : RunnerOutCause → Bool
is_caught_stealing RunnerOutCause.caught_stealing = true
is_caught_stealing _ = false

unfoldable pub tally_runner_out :
    Dict ℕ GameSide → EffectiveReplayStep → RunnerOut → Tallies → Result Tallies
tally_runner_out index step o t = do
  side ← step_batting_side step
  touched ← record_inning step side t
  retired ← retire index step (opposite side) 1 touched
  fielded ← credit_out_path index o.fielders (opposite side) retired
  credit_caught_stealing index (is_caught_stealing o.cause) o.runner_id side fielded

unfoldable pub tally_stolen_base_attempt :
    Dict ℕ GameSide → EffectiveReplayStep → StolenBaseAttempt → Tallies → Result Tallies
unfolding apply_counting_run
tally_stolen_base_attempt index step s t = do
  side ← step_batting_side step
  touched ← record_inning step side t
  elim s.result [
    | StealResult.stolen ↦ do
      stolen ← credit_stolen_base index true s.runner_id side touched
      (if steal_scores s
          then apply_counting_run index step (stolen_movement s) side none stolen
          else ok stolen)
    | StealResult.caught ↦ do
      caught ← credit_caught_stealing index true s.runner_id side touched
      retired ← retire index step (opposite side) 1 caught
      credit_out_path index s.fielders (opposite side) retired
  ]

unfoldable pub credit_runner_movements :
    Dict ℕ GameSide
    → EffectiveReplayStep
    → GameSide
    → PlayType
    → List RunnerMovement
    → Tallies
    → Result Tallies
unfolding apply_counting_run
credit_runner_movements index step side play_type [] t = ok t
credit_runner_movements index step side play_type (m ∷ ms) t = do
  scored ← apply_counting_run index step m side none t
  stolen ← credit_stolen_base index (play_type == PlayType.stolen_base) m.runner_id side scored
  caught ←
      credit_caught_stealing index (play_type == PlayType.caught_stealing && is_out m.to)
        m.runner_id side stolen
  credit_runner_movements index step side play_type ms caught

unfoldable pub tally_runner_play :
    Dict ℕ GameSide → EffectiveReplayStep → RunnerPlay → Tallies → Result Tallies
tally_runner_play index step p t =
    let outs = out_movements p.movements in
    do
      side ← step_batting_side step
      touched ← record_inning step side t
      moved ← credit_runner_movements index step side p.play_type p.movements touched
      retired ← retire index step (opposite side) (length outs) moved
      credit_defense index (opposite side) p.fielding_credits outs retired

abbrev pub starting_appearance : PitchingCounters → PitchingCounters
starting_appearance c = record c {
  appearances = c.appearances + 1;
  games_started = c.games_started + 1;
}

unfoldable pub tally_start : Dict ℕ GameSide → AcceptedSetup → Tallies → Result Tallies
tally_start index setup t = do
  visitors ←
      credit_pitcher index setup.sides.away_side.starting_pitcher_id away starting_appearance t
  credit_pitcher index setup.sides.home_side.starting_pitcher_id home starting_appearance visitors

unfoldable pub tally_pitching_change : Dict ℕ GameSide → PitchingChange → Tallies → Result Tallies
tally_pitching_change index c t =
    credit_pitcher index c.incoming_pitcher_id c.side
      (λ p. record p {
        appearances = p.appearances + 1;
        inherited_runners = p.inherited_runners + length c.inherited_runner_ids;
      })
      t

-- The `switch` on the body of a step.
unfoldable pub tally_body :
    Dict ℕ GameSide → AcceptedSetup → EffectiveReplayStep → EventBody → Tallies → Result Tallies
tally_body index setup step game_started t = tally_start index setup t
tally_body index setup step (play (plate_appearance_recorded p)) t =
    tally_plate_appearance index step p t
tally_body index setup step (play (runner_advance_recorded m)) t =
    tally_runner_advance index step m t
tally_body index setup step (play (runner_out_recorded o)) t = tally_runner_out index step o t
tally_body index setup step (play (stolen_base_attempt_recorded s)) t =
    tally_stolen_base_attempt index step s t
tally_body index setup step (play (runner_play_recorded p)) t = tally_runner_play index step p t
tally_body index setup step (play (pitching_change_made c)) t = tally_pitching_change index c t
tally_body index setup step _ t = ok t

unfoldable pub tally_steps :
    Dict ℕ GameSide → AcceptedSetup → List EffectiveReplayStep → Tallies → Result Tallies
tally_steps index setup [] t = ok t
tally_steps index setup (step ∷ steps) t = do
  next ← tally_body index setup step step.body t
  tally_steps index setup steps next
