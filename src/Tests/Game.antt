-- ===== src/Tests/Game.antt =====
-- A small accepted setup, a game in play and some events.
use baseballstattrack.Common.{ℕ, ◌+◌, ◌-◌, Bool, true, false, none, some, List, [], ◌∷◌, nat_eq}
use baseballstattrack.Events.Enums.{
  Position, Base, first, second, third, RunnerOrigin, RunnerDestination, top, in_progress,
  MovementCause, Outcome, BattedBall, StealTarget, StealResult, Policy, SchemaVersion, EarnedRun,
}
use baseballstattrack.Events.Equality.{
  side_eq, position_eq, base_eq, origin_eq, cause_eq, outcome_eq, credit_eq, play_type_eq,
  policy_eq, status_eq, destination_eq,
}
use baseballstattrack.Events.State.{AcceptedEvent, LineupEntry, AcceptedSetup, GameState, ActorKind}
use baseballstattrack.Events.Bodies.{
  RunnerMovement, PlateAppearance, StolenBaseAttempt, PlayBody, plate_appearance_recorded,
  stolen_base_attempt_recorded, Correction, EventBody, play, correction_applied, game_started,
  game_abandoned,
}
use baseballstattrack.Engine.Setup.{initial_state}

abbrev pub entry : ℕ → ℕ → Position → LineupEntry
entry player_id order position = record {
  player_id = player_id;
  batting_order = some order;
  position = some position;
  active = true;
}

abbrev pub substitute_entry : ℕ → LineupEntry
substitute_entry player_id = record {
  player_id = player_id;
  batting_order = none;
  position = none;
  active = false;
}

abbrev pub lineup : ℕ → List LineupEntry
lineup n =
    entry (n + 1) 1 Position.pitcher
    ∷ entry (n + 2) 2 Position.catcher
    ∷ entry (n + 3) 3 Position.shortstop
    ∷ substitute_entry (n + 9)
    ∷ []

-- Players 11, 12, 13 and 19 at home, and 21, 22, 23 and 29 away.
abbrev pub setup : AcceptedSetup
setup = record {
  id = 5;
  account_id = 6;
  game_id = 7;
  setup_revision = 1;
  ruleset_version_id = 8;
  scheduled_innings = 1;
  is_ready = true;
  sides = record {
    home_side = record { lineup = lineup 10; starting_pitcher_id = 11 };
    away_side = record { lineup = lineup 20; starting_pitcher_id = 21 };
  };
}

abbrev pub created : GameState
created = initial_state setup (lineup 10) (lineup 20)

-- The top of the first inning.
abbrev pub live : GameState
live = record created { status = in_progress; inning = some 1; half = some top }

-- The first batter on second base, the second at bat.
abbrev pub man_on_second : GameState
man_on_second = record live {
  bases = record { on_first = none; on_second = some 21; on_third = none };
  runner_pitcher_responsibility = (21, 11) ∷ [];
  batting_order_index = record { home_side = 0; away_side = 1 };
}

abbrev pub safe : ℕ → RunnerOrigin → Base → MovementCause → RunnerMovement
safe runner from b cause = record {
  runner_id = runner;
  from = from;
  to = RunnerDestination.safe_at b;
  cause = cause;
  forced = false;
  responsible_pitcher_id = 11;
  run_counts = none;
  rbi_eligible = none;
  earned_run = none;
  out_details = none;
}

abbrev pub home_run_of : ℕ → RunnerOrigin → RunnerMovement
home_run_of runner from = record {
  runner_id = runner;
  from = from;
  to = RunnerDestination.home_plate;
  cause = MovementCause.hit;
  forced = false;
  responsible_pitcher_id = 11;
  run_counts = some true;
  rbi_eligible = some true;
  earned_run = some EarnedRun.earned;
  out_details = none;
}

abbrev pub out_of : ℕ → RunnerOrigin → ℕ → Bool → RunnerMovement
out_of runner from number force = record {
  runner_id = runner;
  from = from;
  to = RunnerDestination.out;
  cause = MovementCause.batter_result;
  forced = false;
  responsible_pitcher_id = 11;
  run_counts = none;
  rbi_eligible = none;
  earned_run = none;
  out_details = some (record { out_number = number; force = force; fielders = 13 ∷ [] });
}

abbrev pub appearance : ℕ → Outcome → List RunnerMovement → PlateAppearance
appearance batter outcome movements = record {
  batter_id = batter;
  pitcher_id = 11;
  outcome = outcome;
  batted_ball = some BattedBall.ground_ball;
  movements = movements;
  fielding_credits = [];
}

-- Player 22 doubles: 21 scores from second.
abbrev pub scoring_double : PlateAppearance
scoring_double = appearance 22 Outcome.double (
    home_run_of 21 (RunnerOrigin.on second)
    ∷ safe 22 RunnerOrigin.batter second MovementCause.hit
    ∷ [])

-- Player 22 singles behind 21, who goes to third.
abbrev pub single_behind : PlateAppearance
single_behind = appearance 22 Outcome.single (
    safe 21 (RunnerOrigin.on second) third MovementCause.optional_advance
    ∷ safe 22 RunnerOrigin.batter first MovementCause.hit
    ∷ [])

abbrev pub two_out : GameState
two_out = record man_on_second { outs = 2 }

-- Player 22 grounds out, a force, for the third out.
abbrev pub force_out : PlateAppearance
force_out = appearance 22 Outcome.batter_out (out_of 22 RunnerOrigin.batter 3 true ∷ [])

abbrev pub event : ℕ → ℕ → EventBody → AcceptedEvent
event id sequence body = record {
  id = id;
  account_id = 6;
  game_id = 7;
  setup_snapshot_id = 5;
  setup_revision = 1;
  sequence = sequence;
  schema_version = SchemaVersion.v3;
  ruleset_version_id = 8;
  play_transaction_id = none;
  component_order = none;
  client_submission_id = id;
  expected_revision = sequence - 1;
  accepted_revision = sequence;
  actor_kind = ActorKind.user;
  actor_id = 1;
  actor_user_id = some 1;
  recorded_at = 0;
  accepted_at = 0;
  body = body;
  pre_state_hash = 0;
  post_state_hash = 0;
}

abbrev pub double_of_21 : EventBody
double_of_21 = play (
    plate_appearance_recorded
      (appearance 21 Outcome.double (safe 21 RunnerOrigin.batter second MovementCause.hit ∷ [])))

abbrev pub single_of_21 : PlayBody
single_of_21 =
    plate_appearance_recorded
      (appearance 21 Outcome.single (safe 21 RunnerOrigin.batter first MovementCause.hit ∷ []))

-- A game with a double, a single and an out of order in the store.
abbrev pub log : List AcceptedEvent
log =
    event 102 2 double_of_21
    ∷ event 101 1 game_started
    ∷ event 103 3 (play (plate_appearance_recorded scoring_double))
    ∷ []

abbrev pub replacement : Correction
replacement = record {
  policy = Policy.replace_play;
  target_event_ids = 102 ∷ [];
  replacements = record { id = 200; order = 0; target_event_id = 102; body = single_of_21 } ∷ [];
  reason_code = 1;
}

-- A double that is corrected to a single.
abbrev pub corrected_log : List AcceptedEvent
corrected_log =
    event 101 1 game_started
    ∷ event 102 2 double_of_21
    ∷ event 103 3 (correction_applied replacement)
    ∷ []

-- An abandonment, and a later correction that reverses it.
abbrev pub abandoned_log : List AcceptedEvent
abandoned_log = event 101 1 game_started ∷ event 102 2 (game_abandoned 1) ∷ []

abbrev pub reversal : Correction
reversal = record {
  policy = Policy.reverse_events;
  target_event_ids = 102 ∷ [];
  replacements = [];
  reason_code = 1;
}

abbrev pub reversed_log : List AcceptedEvent
reversed_log =
    event 101 1 game_started
    ∷ event 102 2 (game_abandoned 1)
    ∷ event 103 3 (correction_applied reversal)
    ∷ []

-- A steal of home with no classification of its run, and a correction to it.
abbrev pub steal_home : StolenBaseAttempt
steal_home = record {
  runner_id = 21;
  from = third;
  to = StealTarget.steal_home;
  result = StealResult.stolen;
  responsible_pitcher_id = 11;
  fielders = [];
  earned_run = none;
}

abbrev pub steal_correction : Correction
steal_correction = record {
  policy = Policy.replace_play;
  target_event_ids = 102 ∷ [];
  replacements =
      record {
        id = 200;
        order = 0;
        target_event_id = 102;
        body = stolen_base_attempt_recorded steal_home;
      }
      ∷ [];
  reason_code = 1;
}

-- Player 21 stands on second base and bats.
abbrev pub again : GameState
again = record man_on_second { batting_order_index = record { home_side = 0; away_side = 3 } }

abbrev pub batter_again : RunnerMovement
batter_again = safe 21 RunnerOrigin.batter first MovementCause.hit

abbrev pub again_appearance : PlateAppearance
again_appearance = appearance 21 Outcome.single (batter_again ∷ [])

abbrev pub again_play : PlayBody
again_play = plate_appearance_recorded again_appearance
