-- ===== src/Events/Enums.antt =====
-- The enumerations of src/domain/events/game-events.ts.

pub data GameSide : Type 0 where
  home away : GameSide

pub data Position : Type 0 where
  pitcher catcher first_base second_base third_base shortstop left_field : Position
  center_field right_field designated_hitter extra_hitter : Position

pub data Base : Type 0 where
  first second third : Base

pub data RunnerOrigin : Type 0 where
  batter : RunnerOrigin
  on : Base → RunnerOrigin

pub data RunnerDestination : Type 0 where
  safe_at : Base → RunnerDestination
  home_plate out : RunnerDestination

pub data EarnedRun : Type 0 where
  earned unearned pending : EarnedRun

pub data MovementCause : Type 0 where
  hit forced_advance optional_advance batter_result fielders_choice error sacrifice : MovementCause
  stolen_base caught_stealing pickoff runner_out wild_pitch passed_ball award : MovementCause
  correction : MovementCause

pub data Ending : Type 0 where
  regulation walk_off mercy_rule time_limit forfeit : Ending

pub data Outcome : Type 0 where
  walk intentional_walk hit_by_pitch strikeout_swinging strikeout_looking single double : Outcome
  triple home_run batter_out fielder_choice reached_on_error sacrifice_bunt : Outcome
  sacrifice_fly interference : Outcome

pub data BattedBall : Type 0 where
  ground_ball fly_ball line_drive pop_up bunt : BattedBall

pub data FieldingCreditKind : Type 0 where
  putout assist error : FieldingCreditKind

pub data RunnerOutCause : Type 0 where
  caught_stealing pickoff runner_out fielders_choice other : RunnerOutCause

-- The destinations of `StolenBaseAttemptRecorded`.
pub data StealTarget : Type 0 where
  steal_second steal_third steal_home : StealTarget

pub data StealResult : Type 0 where
  stolen caught : StealResult

pub data PlayType : Type 0 where
  optional_advance error stolen_base caught_stealing pickoff runner_out wild_pitch : PlayType
  passed_ball : PlayType

pub data Policy : Type 0 where
  replace_play replace_event_range replace_judgment reverse_events : Policy

pub data SchemaVersion : Type 0 where
  v1 v2 v3 : SchemaVersion

pub data GameStatus : Type 0 where
  ready in_progress suspended completed verified corrected abandoned cancelled : GameStatus

pub data Half : Type 0 where
  top bottom : Half
