-- ===== src/Engine/Replay.antt =====
-- Replay of an event log: src/domain/events/game-engine.ts from `replayEffectiveWithTimeline` on.
pub mod Contiguous
pub mod Incremental
pub mod Induction
pub mod Reordering
pub mod Soundness
use baseballstattrack.Common.{
  ℕ, Bool, not, ◌||◌, Option, none, some, List, [], ◌∷◌, ◌++◌, length, if◌then◌else◌, filter, ◌==◌,
  nat_eq, contains, lookup, Result, ok, guard, ◌>>=◌, ◌>>◌, EventErrorCode,
}
use baseballstattrack.Events.Enums.{GameStatus, SchemaVersion}
use baseballstattrack.Events.Equality.{
  side_eq, position_eq, base_eq, origin_eq, cause_eq, outcome_eq, credit_eq, play_type_eq,
  policy_eq, status_eq, destination_eq,
}
use baseballstattrack.Events.State.{AcceptedEvent, AcceptedSetup, GameState}
use baseballstattrack.Events.Bodies.{Replacement, EventBody, play}
use baseballstattrack.Events.Parse.{parse_event_body}
use baseballstattrack.Engine.Setup.{create_initial_state}
use baseballstattrack.Engine.Apply.{apply_body, validate_next_envelope, acknowledge}
use baseballstattrack.Engine.Corrections.{
  ReplacementSet, CorrectionResolution, by_sequence, is_correction_event, resolve_corrections,
  resolve_effective_events,
}

pub record EffectiveReplayStep : Type 0 where
  pub effective_event_id : ℕ
  pub source_event_id : ℕ
  pub target_event_id : Option ℕ
  pub sequence : ℕ
  pub schema_version : SchemaVersion
  pub body : EventBody
  pub before : GameState

pub record Timeline : Type 0 where
  pub state : GameState
  pub steps : List EffectiveReplayStep

abbrev push_step : EffectiveReplayStep → List EffectiveReplayStep → List EffectiveReplayStep
push_step step steps = steps ++ step ∷ []

abbrev pub replacement_step :
    AcceptedEvent → ReplacementSet → Replacement → GameState → EffectiveReplayStep
replacement_step event set p state = record {
  effective_event_id = p.id;
  source_event_id = set.correction_event_id;
  target_event_id = some p.target_event_id;
  sequence = event.sequence;
  schema_version = set.schema_version;
  body = play p.body;
  before = state;
}

abbrev pub event_step : AcceptedEvent → EventBody → GameState → EffectiveReplayStep
event_step event body state = record {
  effective_event_id = event.id;
  source_event_id = event.id;
  target_event_id = none;
  sequence = event.sequence;
  schema_version = event.schema_version;
  body = body;
  before = state;
}

-- A body is recorded with the state before it, and then applied.
abbrev pub record_step : EffectiveReplayStep → Timeline → Result Timeline
record_step step t = do
  next ← apply_body t.state step.body
  ok (record { state = next; steps = push_step step t.steps })

unfoldable pub replay_replacements :
    AcceptedEvent → ReplacementSet → List Replacement → Timeline → Result Timeline
replay_replacements event set [] t = ok t
replay_replacements event set (p ∷ rest) t = do
  next ← record_step (replacement_step event set p t.state) t
  replay_replacements event set rest next

abbrev pub replay_replacement_set :
    AcceptedEvent → Option ReplacementSet → Timeline → Result Timeline
replay_replacement_set event none t = ok t
replay_replacement_set event (some set) t = replay_replacements event set set.replacements t

unfoldable pub replay_own_body : CorrectionResolution → AcceptedEvent → Timeline → Result Timeline
replay_own_body resolution event t =
    if contains resolution.suppressed event.id
    then ok t
    else parse_event_body event.body event.schema_version >>= λ body.
        record_step (event_step event body t.state) t

unfoldable pub replay_event : CorrectionResolution → AcceptedEvent → Timeline → Result Timeline
replay_event resolution event t = do
  validate_next_envelope t.state event
  replaced ← replay_replacement_set event (lookup event.id resolution.replacements_by_target) t
  own ← replay_own_body resolution event replaced
  ok (record own { state = acknowledge event own.state })

unfoldable pub replay_events :
    CorrectionResolution → List AcceptedEvent → Timeline → Result Timeline
replay_events resolution [] t = ok t
replay_events resolution (e ∷ rest) t = do
  next ← replay_event resolution e t
  replay_events resolution rest next

-- `replayEffectiveWithTimeline`, which is also `replayGameTimeline`.
unfoldable pub replay_game_timeline : AcceptedSetup → List AcceptedEvent → Result Timeline
replay_game_timeline setup events = do
  let ordered = by_sequence events
  resolution ← resolve_corrections ordered
  state ← create_initial_state setup
  replay_events resolution ordered (record { state = state; steps = [] })

unfoldable pub replay_effective : AcceptedSetup → List AcceptedEvent → Result GameState
replay_effective setup events = do t ← replay_game_timeline setup events; ok t.state

unfoldable pub derive_event_states :
    AcceptedSetup → List AcceptedEvent → AcceptedEvent → Result (GameState × GameState)
derive_event_states setup history proposed = do
  before ← replay_effective setup history
  validate_next_envelope before proposed
  after ← replay_effective setup (history ++ proposed ∷ [])
  ok (before, after)

-- The evidence of each event against a replay of its prefix; the first list is the prefix.
unfoldable pub verify_evidence :
    (GameState → ℕ) → AcceptedSetup → List AcceptedEvent → List AcceptedEvent → Result (Unit {0})
verify_evidence state_hash setup prefix [] = ok tt
verify_evidence state_hash setup prefix (event ∷ rest) = do
  (before, after) ← derive_event_states setup prefix event
  guard
      (not (event.pre_state_hash == state_hash before)
        || not (event.post_state_hash == state_hash after))
      EventErrorCode.immutable_history_violation
  verify_evidence state_hash setup (prefix ++ event ∷ []) rest

pub record ReplayMetadata : Type 0 where
  pub account_id : ℕ
  pub game_id : ℕ
  pub setup_snapshot_id : ℕ
  pub setup_revision : ℕ
  pub final_source_revision : ℕ
  pub event_count : ℕ
  pub effective_event_count : ℕ
  pub correction_count : ℕ
  pub ruleset_version_id : ℕ
  pub reducer_version : ℕ
  pub is_verified : Bool

unfoldable pub replay_game :
    (GameState → ℕ)
    → Bool
    → AcceptedSetup
    → List AcceptedEvent
    → Result (GameState × ReplayMetadata)
replay_game state_hash with_evidence setup events = do
  let ordered = by_sequence events
  if with_evidence then verify_evidence state_hash setup [] ordered else ok tt
  state ← replay_effective setup ordered
  effective ← resolve_effective_events events
  ok (
    state,
    record {
      account_id = setup.account_id;
      game_id = setup.game_id;
      setup_snapshot_id = setup.id;
      setup_revision = setup.setup_revision;
      final_source_revision = state.source_revision;
      event_count = length events;
      effective_event_count = length effective;
      correction_count = length (filter is_correction_event events);
      ruleset_version_id = setup.ruleset_version_id;
      reducer_version = 4;
      is_verified = state.status == GameStatus.verified;
    },
  )
