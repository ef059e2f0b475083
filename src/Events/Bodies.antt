-- ===== src/Events/Bodies.antt =====
-- The event payloads of src/domain/events/game-events.ts, once decoded. An identifier is a trimmed
-- text that is only compared: a number stands for it.
use baseballstattrack.Common.{ℕ, Bool, Option, List}
use baseballstattrack.Events.Enums.{
  GameSide, Position, Base, RunnerOrigin, RunnerDestination, EarnedRun, MovementCause, Ending,
  Outcome, BattedBall, FieldingCreditKind, RunnerOutCause, StealTarget, StealResult, PlayType,
  Policy,
}

pub record OutDetails : Type 0 where
  pub out_number : ℕ
  pub force : Bool
  pub fielders : List ℕ

pub record RunnerMovement : Type 0 where
  pub runner_id : ℕ
  pub from : RunnerOrigin
  pub to : RunnerDestination
  pub cause : MovementCause
  pub forced : Bool
  pub responsible_pitcher_id : ℕ
  pub run_counts : Option Bool
  pub rbi_eligible : Option Bool
  pub earned_run : Option EarnedRun
  pub out_details : Option OutDetails

pub record FieldingCredit : Type 0 where
  pub fielder_id : ℕ
  pub credit : FieldingCreditKind
  pub error_type : Option ℕ

pub record PlateAppearance : Type 0 where
  pub batter_id : ℕ
  pub pitcher_id : ℕ
  pub outcome : Outcome
  pub batted_ball : Option BattedBall
  pub movements : List RunnerMovement
  pub fielding_credits : List FieldingCredit

pub record RunnerOut : Type 0 where
  pub runner_id : ℕ
  pub from : Base
  pub responsible_pitcher_id : ℕ
  pub cause : RunnerOutCause
  pub out_number : ℕ
  pub force : Bool
  pub fielders : List ℕ

pub record StolenBaseAttempt : Type 0 where
  pub runner_id : ℕ
  pub from : Base
  pub to : StealTarget
  pub result : StealResult
  pub responsible_pitcher_id : ℕ
  pub fielders : List ℕ
  pub earned_run : Option EarnedRun

pub record RunnerPlay : Type 0 where
  pub play_type : PlayType
  pub movements : List RunnerMovement
  pub fielding_credits : List FieldingCredit
  pub responsible_fielder_id : Option ℕ

pub record Substitution : Type 0 where
  pub side : GameSide
  pub outgoing_player_id : ℕ
  pub incoming_player_id : ℕ
  pub position : Position

pub record Assignment : Type 0 where
  pub player_id : ℕ
  pub position : Position

pub record Alignment : Type 0 where
  pub side : GameSide
  pub assignments : List Assignment
  pub reason_code : ℕ

pub record PitchingChange : Type 0 where
  pub side : GameSide
  pub outgoing_pitcher_id : ℕ
  pub incoming_pitcher_id : ℕ
  pub inherited_runner_ids : List ℕ

-- `replaceableEventBodySchema`: the events that a correction may replace.
pub data PlayBody : Type 0 where
  plate_appearance_recorded : PlateAppearance → PlayBody
  runner_advance_recorded : RunnerMovement → PlayBody
  runner_out_recorded : RunnerOut → PlayBody
  stolen_base_attempt_recorded : StolenBaseAttempt → PlayBody
  runner_play_recorded : RunnerPlay → PlayBody
  defensive_substitution_made : Substitution → PlayBody
  defensive_alignment_changed : Alignment → PlayBody
  pitching_change_made : PitchingChange → PlayBody

pub record Replacement : Type 0 where
  pub id : ℕ
  pub order : ℕ
  pub target_event_id : ℕ
  pub body : PlayBody

pub record Correction : Type 0 where
  pub policy : Policy
  pub target_event_ids : List ℕ
  pub replacements : List Replacement
  pub reason_code : ℕ

-- `eventBodySchema`; `play` holds the eight events of `PlayBody`.
pub data EventBody : Type 0 where
  game_started : EventBody
  game_suspended : ℕ → EventBody
  game_resumed : EventBody
  game_completed : Ending → ℕ → EventBody
  game_verified : EventBody
  game_reopened game_abandoned game_cancelled : ℕ → EventBody
  play : PlayBody → EventBody
  correction_applied : Correction → EventBody
