-- ===== src/Engine/Apply.antt =====
-- `applyBody`, `applyEvent` and `previewEventBody` of src/domain/events/game-engine.ts.
pub mod Scoring
pub mod Results
pub mod Soundness
pub mod Lifecycle
pub mod Invariant
pub mod Order
pub mod Doubled
pub mod Classified
use baseballstattrack.Common.{
  ℕ, ◌+◌, Bool, true, false, not, ◌&&◌, ◌||◌, ◌==◌, nat_eq, Result, ok, guard, ◌>>=◌, ◌>>◌,
  EventErrorCode,
}
use baseballstattrack.Events.Enums.{SchemaVersion}
use baseballstattrack.Events.Equality.{
  side_eq, position_eq, base_eq, origin_eq, cause_eq, outcome_eq, credit_eq, play_type_eq,
  policy_eq, status_eq, destination_eq,
}
use baseballstattrack.Events.State.{AcceptedEvent, GameState}
use baseballstattrack.Events.Bodies.{
  PlayBody, plate_appearance_recorded, runner_advance_recorded, runner_out_recorded,
  stolen_base_attempt_recorded, runner_play_recorded, defensive_substitution_made,
  defensive_alignment_changed, pitching_change_made, EventBody, play, correction_applied,
  game_started, game_suspended, game_resumed, game_completed, game_verified, game_reopened,
  game_abandoned, game_cancelled,
}
use baseballstattrack.Events.Parse.{parse_event_body}
use baseballstattrack.Engine.Lifecycle.{
  start_game, suspend_game, resume_game, complete_game, verify_game, reopen_game, abandon_game,
  cancel_game, correct_game,
}
use baseballstattrack.Engine.Plays.{
  record_plate_appearance, record_runner_advance, record_runner_out, record_stolen_base_attempt,
  record_runner_play,
}
use baseballstattrack.Engine.Roster.{make_substitution, change_alignment, make_pitching_change}

unfoldable pub apply_play : GameState → PlayBody → Result GameState
apply_play state (plate_appearance_recorded p) = record_plate_appearance state p
apply_play state (runner_advance_recorded m) = record_runner_advance state m
apply_play state (runner_out_recorded o) = record_runner_out state o
apply_play state (stolen_base_attempt_recorded s) = record_stolen_base_attempt state s
apply_play state (runner_play_recorded p) = record_runner_play state p
apply_play state (defensive_substitution_made s) = make_substitution state s
apply_play state (defensive_alignment_changed a) = change_alignment state a
apply_play state (pitching_change_made c) = make_pitching_change state c

unfoldable pub apply_body : GameState → EventBody → Result GameState
apply_body state game_started = start_game state
apply_body state (game_suspended _) = suspend_game state
apply_body state game_resumed = resume_game state
apply_body state (game_completed ending _) = complete_game ending state
apply_body state game_verified = verify_game state
apply_body state (game_reopened _) = reopen_game state
apply_body state (game_abandoned _) = abandon_game state
apply_body state (game_cancelled _) = cancel_game state
apply_body state (play p) = apply_play state p
apply_body state (correction_applied _) = correct_game state

unfoldable pub validate_event_identity : GameState → AcceptedEvent → Result (Unit {0})
validate_event_identity state event = do
  guard (not (event.account_id == state.account_id)) EventErrorCode.account_mismatch
  guard (not (event.game_id == state.game_id)) EventErrorCode.game_mismatch
  guard
      (not (event.setup_snapshot_id == state.setup_snapshot_id)
        || not (event.setup_revision == state.setup_revision))
      EventErrorCode.setup_not_ready
  guard (not (event.ruleset_version_id == state.ruleset_version_id))
      EventErrorCode.invalid_baseball_transition

unfoldable pub validate_next_envelope : GameState → AcceptedEvent → Result (Unit {0})
validate_next_envelope state event = do
  validate_event_identity state event
  guard
      (not (event.expected_revision == state.source_revision)
        || not (event.accepted_revision == state.source_revision + 1))
      EventErrorCode.stale_source_revision
  guard (not (event.sequence == state.last_sequence + 1)) EventErrorCode.sequence_conflict

-- The two writes that end the handling of an event.
abbrev pub acknowledge : AcceptedEvent → GameState → GameState
acknowledge event state = record state {
  source_revision = event.accepted_revision;
  last_sequence = event.sequence;
}

abbrev pub is_correction : EventBody → Bool
is_correction (correction_applied _) = true
is_correction _ = false

-- `state_hash` is `stateHash`, a SHA-256 of the canonical text.
unfoldable pub apply_event : (GameState → ℕ) → Bool → GameState → AcceptedEvent → Result GameState
apply_event state_hash verify_evidence current event = do
  validate_next_envelope current event
  guard (is_correction event.body) EventErrorCode.correction_graph_invalid
  guard (verify_evidence && not (event.pre_state_hash == state_hash current))
      EventErrorCode.immutable_history_violation
  body ← parse_event_body event.body event.schema_version
  applied ← apply_body current body
  let next = acknowledge event applied
  guard (verify_evidence && not (event.post_state_hash == state_hash next))
      EventErrorCode.immutable_history_violation
  ok next

unfoldable pub preview_event_body : GameState → EventBody → Result GameState
preview_event_body current input = do
  body ← parse_event_body input SchemaVersion.v3
  apply_body current body
