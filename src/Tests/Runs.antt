-- ===== src/Tests/Runs.antt =====
-- Runs of the engine on the games of `Game`.
use baseballstattrack.Common.{List, [], nat_eq, Result, ok, err}
use baseballstattrack.Events.Equality.{
  side_eq, position_eq, base_eq, origin_eq, cause_eq, outcome_eq, credit_eq, play_type_eq,
  policy_eq, status_eq, destination_eq,
}
use baseballstattrack.Events.State.{AcceptedEvent, AcceptedSetup, GameState}
use baseballstattrack.Events.Bodies.{PlayBody, EventBody}
use baseballstattrack.Tests.Game.{setup, live}
use baseballstattrack.Engine.Setup.{
  create_initial_state, validate_setup_side, setup_side_invalid, initial_state, defense_for,
}
use baseballstattrack.Engine.Innings.{
  batting_side, fielding_side, current_batter, require_live, end_half_inning, finish_outs,
}
use baseballstattrack.Engine.Movement.{
  check_movement, check_movements, has_duplicates, move_runner, move_runners, runner_passed,
  write_movements, apply_movements,
}
use baseballstattrack.Engine.Plays.{
  validate_batter_resolution, fielding_credits_invalid, sacrifice_invalid, batter_movement,
  check_plate_appearance, record_plate_appearance,
}
use baseballstattrack.Engine.Apply.{
  apply_play, apply_body, validate_event_identity, validate_next_envelope,
}
use baseballstattrack.Engine.Lifecycle.{start_game, correct_game, suspend_game}
use baseballstattrack.Engine.Corrections.{
  CorrectionResolution, check_target, claim_targets, claim_replacement_ids, add_replacements,
  resolve_correction, resolve_event, resolve_events, resolve_corrections,
}
use baseballstattrack.Engine.Replay.{
  Timeline, replay_replacements, replay_own_body, replay_event, replay_events, replay_game_timeline,
}
use baseballstattrack.Events.Parse.{
  parse_event_body, classifications, validate_versioned_run_classifications,
}
use baseballstattrack.Events.Schema.{event_body_valid}

abbrev pub value_or : {A : Type 0} → A → Result A → A
value_or d (ok a) = a
value_or d (err _) = d

-- The state after a play; the line names what a plate appearance runs through.
unfoldable pub run_play : GameState → PlayBody → GameState
unfolding initial_state defense_for apply_play record_plate_appearance check_plate_appearance
    require_live current_batter batting_side fielding_side fielding_credits_invalid
    sacrifice_invalid batter_movement validate_batter_resolution apply_movements has_duplicates
    check_movements check_movement write_movements move_runners move_runner runner_passed
    finish_outs end_half_inning
run_play state p = value_or state (apply_play state p)

unfoldable pub run_body : GameState → EventBody → GameState
unfolding run_play apply_body start_game suspend_game correct_game
run_body state body = value_or state (apply_body state body)

unfoldable pub run_setup : AcceptedSetup → GameState
unfolding create_initial_state validate_setup_side setup_side_invalid initial_state defense_for
run_setup s = value_or live (create_initial_state s)

unfoldable pub run_log : List AcceptedEvent → Timeline
unfolding run_body run_setup replay_game_timeline resolve_corrections resolve_events resolve_event
    resolve_correction claim_targets check_target add_replacements claim_replacement_ids
    replay_events replay_event replay_own_body replay_replacements validate_next_envelope
    validate_event_identity parse_event_body validate_versioned_run_classifications classifications
    event_body_valid
run_log events = value_or (record { state = live; steps = [] }) (replay_game_timeline setup events)

unfoldable pub run_resolution : List AcceptedEvent → CorrectionResolution
unfolding resolve_corrections resolve_events resolve_event resolve_correction claim_targets
    check_target add_replacements claim_replacement_ids parse_event_body
    validate_versioned_run_classifications classifications event_body_valid
run_resolution events =
    value_or (record { suppressed = []; replacements_by_target = [] }) (resolve_corrections events)
