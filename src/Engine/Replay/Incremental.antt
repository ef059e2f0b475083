-- ===== src/Engine/Replay/Incremental.antt =====
-- Without corrections a replay is the fold of `applyEvent`.
use baseballstattrack.Common.{
  ℕ, ◌≡◌, refl, ◌∙◌, inl, inr, Bool, true, false, not, List, [], ◌∷◌, all, nat_eq, distinct, Result,
  ok, ◌>>=◌, arith,
}
use baseballstattrack.Events.Equality.{
  side_eq, position_eq, base_eq, origin_eq, cause_eq, outcome_eq, credit_eq, play_type_eq,
  policy_eq, status_eq, destination_eq,
}
use baseballstattrack.Events.State.{AcceptedEvent, AcceptedSetup, GameState}
use mathlib.Core.List.{reverse}
use baseballstattrack.Common.{Result-cases}
use baseballstattrack.Common.Sorting.{all-sort_by, all-reverse, distinct-sort_by}
use baseballstattrack.Engine.Setup.{create_initial_state}
use baseballstattrack.Engine.Apply.{apply_event}
use baseballstattrack.Engine.Corrections.{
  CorrectionResolution, Resolving, nothing_resolved, is_correction_event, event_ids, by_sequence,
  resolve_event, resolve_events, resolve_corrections,
}
use baseballstattrack.Engine.Replay.{
  Timeline, replay_event, replay_events, replay_own_body, replay_game_timeline, replay_effective,
}

-- Events accepted one by one.
pub apply_events : (GameState → ℕ) → List AcceptedEvent → GameState → Result GameState
apply_events state_hash [] state = ok state
apply_events state_hash (e ∷ es) state = do
  next ← apply_event state_hash false state e
  apply_events state_hash es next

abbrev state_of : Result Timeline → Result GameState
state_of r = r >>= λ t. ok t.state

abbrev no_resolution : CorrectionResolution
no_resolution = record { suppressed = []; replacements_by_target = [] }

abbrev pub no_corrections : List AcceptedEvent → Bool
no_corrections = all (λ e. not (is_correction_event e))

replay_event-apply_event :
    (state_hash : GameState → ℕ) (e : AcceptedEvent) (t : Timeline)
    → is_correction_event e ≡ false
    → state_of (replay_event no_resolution e t) ≡ apply_event state_hash false t.state e
unfolding replay_event replay_own_body apply_event
replay_event-apply_event state_hash e t h = ground arith

replay_events-apply_events :
    (state_hash : GameState → ℕ) (es : List AcceptedEvent) (t : Timeline)
    → no_corrections es ≡ true
    → state_of (replay_events no_resolution es t) ≡ apply_events state_hash es t.state
unfolding replay_events apply_events
replay_events-apply_events state_hash [] t h = refl
replay_events-apply_events state_hash (e ∷ es) t h =
    elim (Result-cases (replay_event no_resolution e t)) [
      | inl (u, went) ↦ ground (
        arith,
        went,
        replay_event-apply_event state_hash e t,
        replay_events-apply_events state_hash es u,
      )
      | inr (f, failed) ↦ ground (arith, failed, replay_event-apply_event state_hash e t)
    ]

resolve_events-nothing :
    (events es : List AcceptedEvent) (r : Resolving)
    → no_corrections es ≡ true
    → resolve_events events es r ≡ ok r
unfolding resolve_events resolve_event
resolve_events-nothing events [] r h = refl
resolve_events-nothing events (e ∷ es) r h = ground (arith, resolve_events-nothing events es r)

pub resolve_corrections-nothing :
    (events : List AcceptedEvent)
    → no_corrections events ≡ true
    → distinct (event_ids events) ≡ true
    → resolve_corrections events ≡ ok no_resolution
unfolding resolve_corrections
resolve_corrections-nothing events n d =
    let ordered = by_sequence events in
    let none_there =
      all-reverse (λ e. not (is_correction_event e)) ordered
      ∙ all-sort_by (λ (e : AcceptedEvent). e.sequence) (λ e. not (is_correction_event e)) events
      ∙ n in
    rw (
      distinct-sort_by (λ (e : AcceptedEvent). e.sequence) (λ (e : AcceptedEvent). e.id) events,
      d,
      resolve_events-nothing ordered (reverse ordered) nothing_resolved none_there,
    )

-- For a log with no correction and no repeated identifier, a replay comes to what accepting the
-- events one by one, in the order of their sequence numbers, comes to: the same state, or the same error.
pub replay_effective-apply_events :
    (state_hash : GameState → ℕ) (setup : AcceptedSetup) (events : List AcceptedEvent)
    → no_corrections events ≡ true
    → distinct (event_ids events) ≡ true
    → replay_effective setup events
      ≡ (create_initial_state setup >>= apply_events state_hash (by_sequence events))
unfolding replay_effective replay_game_timeline
replay_effective-apply_events state_hash setup events n d =
    let ordered = by_sequence events in
    let by = λ (e : AcceptedEvent). e.sequence in
    let n' = all-sort_by by (λ e. not (is_correction_event e)) events ∙ n in
    let d' = distinct-sort_by by (λ (e : AcceptedEvent). e.id) events ∙ d in
    let resolved = resolve_corrections-nothing ordered n' d' in
    elim (Result-cases (create_initial_state setup)) [
      | inl (state, started) ↦
          rw (resolved, started)
            (replay_events-apply_events state_hash ordered (record { state = state; steps = [] })
              n')
      | inr (f, failed) ↦ rw (resolved, failed)
    ]
