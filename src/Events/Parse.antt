-- ===== src/Events/Parse.antt =====
-- `parseEventBody` and `parseEvent` of src/domain/events/game-events.ts, from the decoded input on.
pub mod Unclassified
use baseballstattrack.Common.{
  ℕ, ◌+◌, Bool, true, false, not, ◌&&◌, ◌||◌, Option, none, some, List, [], ◌∷◌, ◌++◌, map, leb,
  if◌then◌else◌, is_some, filter, any, ◌==◌, nat_eq, Result, ok, err, raise, guard, ◌>>◌,
  EventErrorCode,
}
use baseballstattrack.Events.Enums.{EarnedRun, SchemaVersion, v1, v2, v3}
use baseballstattrack.Events.Bodies.{
  RunnerMovement, PlayBody, plate_appearance_recorded, runner_advance_recorded,
  stolen_base_attempt_recorded, runner_play_recorded, Replacement, EventBody, correction_applied,
  play,
}
use baseballstattrack.Events.State.{AcceptedEvent}
use baseballstattrack.Events.Schema.{is_home, is_true, steal_scores, event_body_valid}

abbrev pub play_scoring_movements : PlayBody → List RunnerMovement
play_scoring_movements (plate_appearance_recorded p) = p.movements
play_scoring_movements (runner_advance_recorded m) = m ∷ []
play_scoring_movements (runner_play_recorded p) = p.movements
play_scoring_movements _ = []

abbrev pub replacement_movements : List Replacement → List RunnerMovement
replacement_movements [] = []
replacement_movements (r ∷ rs) = play_scoring_movements r.body ++ replacement_movements rs

abbrev pub scoring_movements : EventBody → List RunnerMovement
scoring_movements (play p) = play_scoring_movements p
scoring_movements (correction_applied c) = replacement_movements c.replacements
scoring_movements _ = []

-- A movement home whose run counts.
abbrev pub scores : RunnerMovement → Bool
scores m = is_home m.to && is_true m.run_counts

abbrev pub steal_classification : EventBody → List (Option EarnedRun)
steal_classification (play (stolen_base_attempt_recorded s)) =
    if steal_scores s then s.earned_run ∷ [] else []
steal_classification _ = []

unfoldable pub classifications : EventBody → List (Option EarnedRun)
classifications body =
    map (λ (m : RunnerMovement). m.earned_run) (filter scores (scoring_movements body))
    ++ steal_classification body

unfoldable pub validate_versioned_run_classifications :
    EventBody → SchemaVersion → Result (Unit {0})
validate_versioned_run_classifications body v1 =
    guard (any is_some (classifications body)) EventErrorCode.invalid_payload
validate_versioned_run_classifications body _ =
    guard (any (λ c. not (is_some c)) (classifications body)) EventErrorCode.invalid_payload

abbrev pub is_runner_play : PlayBody → Bool
is_runner_play (runner_play_recorded _) = true
is_runner_play _ = false

-- The events that only schema version 3 knows.
abbrev pub needs_version_3 : EventBody → Bool
needs_version_3 (play p) = is_runner_play p
needs_version_3 (correction_applied c) =
    any (λ (r : Replacement). is_runner_play r.body) c.replacements
needs_version_3 _ = false

abbrev pub is_v3 : SchemaVersion → Bool
is_v3 v3 = true
is_v3 _ = false

unfoldable pub parse_event_body : EventBody → SchemaVersion → Result EventBody
parse_event_body body version =
    guard (not (event_body_valid body)) EventErrorCode.invalid_payload
    >> guard (not (is_v3 version) && needs_version_3 body) EventErrorCode.invalid_payload
    >> validate_versioned_run_classifications body version
    >> ok body

abbrev pub is_ok {ℓ} : {A : Type ℓ} → Result A → Bool
is_ok (ok _) = true
is_ok (err _) = false

unfoldable pub envelope_valid : AcceptedEvent → Bool
envelope_valid e =
    leb 1 e.setup_revision
    && leb 1 e.sequence
    && leb 1 e.accepted_revision
    && e.accepted_revision == e.expected_revision + 1
    && not (
        not (is_some e.play_transaction_id) && is_some e.component_order
        || is_some e.play_transaction_id && not (is_some e.component_order))
    && is_ok (parse_event_body e.body e.schema_version)

unfoldable pub parse_event : AcceptedEvent → Result AcceptedEvent
parse_event e =
    if envelope_valid e
    then ok e
    else (parse_event_body e.body e.schema_version >> raise EventErrorCode.invalid_payload)
