-- ===== src/Engine/Plays.antt =====
-- The scoring cases of `applyBody`, src/domain/events/game-engine.ts.
pub mod Resolution
use baseballstattrack.Common.{
  ℕ, ◌+◌, ◌*◌, Bool, true, false, not, ◌&&◌, ◌||◌, Option, none, some, List, [], ◌∷◌, map, length,
  if◌then◌else◌, is_some, filter, any, ◌==◌, nat_eq, contains, distinct, option_beq, lookup, values,
  Result, ok, raise, guard, ◌>>=◌, ◌>>◌, EventErrorCode,
}
use baseballstattrack.Events.Enums.{
  GameSide, Position, first, second, third, RunnerOrigin, RunnerDestination, MovementCause, Outcome,
  BattedBall, RunnerOutCause, StealTarget, StealResult, PlayType,
}
use baseballstattrack.Events.Equality.{
  side_eq, position_eq, base_eq, origin_eq, cause_eq, outcome_eq, credit_eq, play_type_eq,
  policy_eq, status_eq, credit_code, destination_eq,
}
use baseballstattrack.Events.State.{at_side, put_side, GameState}
use baseballstattrack.Events.Bodies.{
  RunnerMovement, FieldingCredit, PlateAppearance, RunnerOut, StolenBaseAttempt, RunnerPlay,
}
use baseballstattrack.Events.Schema.{is_home}
use baseballstattrack.Engine.Innings.{
  batting_side, fielding_side, current_batter, require_live, finish_outs,
}
use baseballstattrack.Engine.Movement.{apply_movements}

abbrev pub expected_destination : Outcome → RunnerDestination
expected_destination Outcome.walk = RunnerDestination.safe_at first
expected_destination Outcome.intentional_walk = RunnerDestination.safe_at first
expected_destination Outcome.hit_by_pitch = RunnerDestination.safe_at first
expected_destination Outcome.strikeout_swinging = RunnerDestination.out
expected_destination Outcome.strikeout_looking = RunnerDestination.out
expected_destination Outcome.single = RunnerDestination.safe_at first
expected_destination Outcome.double = RunnerDestination.safe_at second
expected_destination Outcome.triple = RunnerDestination.safe_at third
expected_destination Outcome.home_run = RunnerDestination.home_plate
expected_destination Outcome.batter_out = RunnerDestination.out
expected_destination Outcome.fielder_choice = RunnerDestination.safe_at first
expected_destination Outcome.reached_on_error = RunnerDestination.safe_at first
expected_destination Outcome.sacrifice_bunt = RunnerDestination.out
expected_destination Outcome.sacrifice_fly = RunnerDestination.out
expected_destination Outcome.interference = RunnerDestination.safe_at first

unfoldable pub validate_batter_resolution : Outcome → RunnerDestination → Result (Unit {0})
validate_batter_resolution outcome destination =
    guard (not (destination == expected_destination outcome)) EventErrorCode.invalid_runner_movement

abbrev pub active_defenders : GameState → List ℕ
active_defenders state = values (at_side state.defense (fielding_side state))

-- A number for the key `${fielderId}\0${credit}`: three credits to a fielder.
abbrev pub credit_key : FieldingCredit → ℕ
credit_key c = 3 * c.fielder_id + credit_code c.credit

unfoldable pub fielding_credits_invalid : GameState → List FieldingCredit → Bool
fielding_credits_invalid state credits =
    any (λ (c : FieldingCredit). not (contains (active_defenders state) c.fielder_id)) credits
    || not (distinct (map credit_key credits))

abbrev pub batted_ball_is_bunt : Option BattedBall → Bool
batted_ball_is_bunt (some BattedBall.bunt) = true
batted_ball_is_bunt _ = false

abbrev pub batted_ball_is_fly : Option BattedBall → Bool
batted_ball_is_fly (some BattedBall.fly_ball) = true
batted_ball_is_fly _ = false

unfoldable pub sacrifice_invalid : GameState → PlateAppearance → Bool
sacrifice_invalid state p =
    let is_bunt = p.outcome == Outcome.sacrifice_bunt in
    let is_fly = p.outcome == Outcome.sacrifice_fly in
    is_bunt && not (batted_ball_is_bunt p.batted_ball)
    || is_fly && not (batted_ball_is_fly p.batted_ball)
    || (is_bunt || is_fly) && state.outs == 2

-- The one movement from the plate, which is the batter's; none, or several, is an error.
abbrev pub single_batter : ℕ → List RunnerMovement → Result RunnerMovement
single_batter batter_id (m ∷ []) =
    guard (not (m.runner_id == batter_id)) EventErrorCode.invalid_runner_movement >> ok m
single_batter batter_id _ = raise EventErrorCode.invalid_runner_movement

abbrev pub is_from_plate : RunnerMovement → Bool
is_from_plate m = m.from == RunnerOrigin.batter

unfoldable pub batter_movement : PlateAppearance → Result RunnerMovement
batter_movement p = single_batter p.batter_id (filter is_from_plate p.movements)

abbrev pub advance_order : GameSide → GameState → GameState
advance_order side state = record state {
  batting_order_index =
      put_side side (at_side state.batting_order_index side + 1) state.batting_order_index;
}

unfoldable pub check_plate_appearance : GameState → PlateAppearance → Result (Unit {0})
check_plate_appearance state p = do
  require_live state
  batter ← current_batter state
  guard (not (p.batter_id == batter)) EventErrorCode.invalid_lineup
  guard (not (p.pitcher_id == at_side state.active_pitcher (fielding_side state)))
      EventErrorCode.invalid_pitcher
  guard (fielding_credits_invalid state p.fielding_credits) EventErrorCode.invalid_lineup
  guard (sacrifice_invalid state p) EventErrorCode.invalid_baseball_transition
  movement ← batter_movement p
  validate_batter_resolution p.outcome movement.to

unfoldable pub record_plate_appearance : GameState → PlateAppearance → Result GameState
record_plate_appearance state p = do
  check_plate_appearance state p
  (moved, outs) ← apply_movements state p.movements
  finish_outs (advance_order (batting_side moved) moved) outs

-- `finishOuts(state, applyMovements(state, movements))`
unfoldable pub move_and_count : GameState → List RunnerMovement → Result GameState
move_and_count state ms = do (moved, outs) ← apply_movements state ms; finish_outs moved outs

unfoldable pub record_runner_advance : GameState → RunnerMovement → Result GameState
record_runner_advance state m = do
  require_live state
  guard (m.from == RunnerOrigin.batter) EventErrorCode.invalid_runner_movement
  move_and_count state (m ∷ [])

abbrev pub runner_out_cause : RunnerOutCause → MovementCause
runner_out_cause RunnerOutCause.caught_stealing = MovementCause.caught_stealing
runner_out_cause RunnerOutCause.pickoff = MovementCause.pickoff
runner_out_cause _ = MovementCause.fielders_choice

abbrev pub runner_out_movement : RunnerOut → RunnerMovement
runner_out_movement o = record {
  runner_id = o.runner_id;
  from = RunnerOrigin.on o.from;
  to = RunnerDestination.out;
  cause = runner_out_cause o.cause;
  forced = o.force;
  responsible_pitcher_id = o.responsible_pitcher_id;
  run_counts = none;
  rbi_eligible = none;
  earned_run = none;
  out_details = some (record { out_number = o.out_number; force = o.force; fielders = o.fielders });
}

unfoldable pub record_runner_out : GameState → RunnerOut → Result GameState
record_runner_out state o = require_live state >> move_and_count state (runner_out_movement o ∷ [])

abbrev pub steal_destination : StealTarget → RunnerDestination
steal_destination StealTarget.steal_second = RunnerDestination.safe_at second
steal_destination StealTarget.steal_third = RunnerDestination.safe_at third
steal_destination StealTarget.steal_home = RunnerDestination.home_plate

abbrev pub caught_movement : GameState → StolenBaseAttempt → RunnerMovement
caught_movement state s = record {
  runner_id = s.runner_id;
  from = RunnerOrigin.on s.from;
  to = RunnerDestination.out;
  cause = MovementCause.caught_stealing;
  forced = false;
  responsible_pitcher_id = s.responsible_pitcher_id;
  run_counts = none;
  rbi_eligible = none;
  earned_run = none;
  out_details = some (record { out_number = state.outs + 1; force = false; fielders = s.fielders });
}

abbrev pub stolen_movement : StolenBaseAttempt → RunnerMovement
stolen_movement s =
    let to = steal_destination s.to in
    let home_bound = is_home to in
    record {
      runner_id = s.runner_id;
      from = RunnerOrigin.on s.from;
      to = to;
      cause = MovementCause.stolen_base;
      forced = false;
      responsible_pitcher_id = s.responsible_pitcher_id;
      run_counts = if home_bound then some true else none;
      rbi_eligible = if home_bound then some false else none;
      earned_run = if home_bound then s.earned_run else none;
      out_details = none;
    }

unfoldable pub steal_movement : GameState → StolenBaseAttempt → RunnerMovement
steal_movement state s = elim s.result [
  | StealResult.caught ↦ caught_movement state s
  | StealResult.stolen ↦ stolen_movement s
]

unfoldable pub record_stolen_base_attempt : GameState → StolenBaseAttempt → Result GameState
record_stolen_base_attempt state s =
    require_live state >> move_and_count state (steal_movement state s ∷ [])

-- A passed ball that is not charged to the active catcher.
abbrev pub passed_ball_invalid : GameState → RunnerPlay → Bool
passed_ball_invalid state p =
    p.play_type == PlayType.passed_ball
    && not (
        is_some p.responsible_fielder_id
        && option_beq p.responsible_fielder_id
            (lookup Position.catcher (at_side state.defense (fielding_side state))))

unfoldable pub record_runner_play : GameState → RunnerPlay → Result GameState
record_runner_play state p = do
  require_live state
  guard (fielding_credits_invalid state p.fielding_credits) EventErrorCode.invalid_lineup
  guard (passed_ball_invalid state p) EventErrorCode.invalid_lineup
  move_and_count state p.movements
