-- ===== src/Engine/Replay/Contiguous.antt =====
-- A replay that succeeds has read revisions and sequences without a gap.
use baseballstattrack.Common.{
  ℕ, suc, ◌+◌, ◌≡◌, List, [], ◌∷◌, length, nat_eq, lookup, Result, ok, ◌>>◌, arith,
}
use baseballstattrack.Events.Equality.{
  side_eq, position_eq, base_eq, origin_eq, cause_eq, outcome_eq, credit_eq, play_type_eq,
  policy_eq, status_eq, destination_eq,
}
use baseballstattrack.Events.State.{AcceptedEvent, AcceptedSetup, GameState}
use baseballstattrack.Common.{>>=-eq-ok}
use baseballstattrack.Common.Sorting.{length-sort_by}
use baseballstattrack.Engine.Setup.{create_initial_state, initial_state}
use baseballstattrack.Engine.Apply.{validate_event_identity, validate_next_envelope}
use baseballstattrack.Engine.Corrections.{CorrectionResolution, by_sequence, resolve_corrections}
use baseballstattrack.Engine.Replay.{
  Timeline, replay_event, replay_events, replay_own_body, replay_replacement_set,
  replay_game_timeline, replay_effective,
}

-- The events carry the numbers that follow `n`.
abbrev pub Numbered : ℕ → List AcceptedEvent → Type 0
Numbered n [] = Unit
Numbered n (e ∷ es) =
    (e.sequence ≡ suc n)
    × (e.expected_revision ≡ n)
    × (e.accepted_revision ≡ suc n)
    × Numbered (suc n) es

envelope-numbers :
    (state : GameState) (e : AcceptedEvent) {k : Result Timeline} {t : Timeline}
    → (validate_next_envelope state e >> k) ≡ ok t
    → (k ≡ ok t)
      × (e.sequence ≡ suc state.last_sequence)
      × (e.expected_revision ≡ state.source_revision)
      × (e.accepted_revision ≡ suc state.source_revision)
unfolding validate_next_envelope validate_event_identity
envelope-numbers state e h = ground arith

replay_event-numbers :
    (res : CorrectionResolution) (e : AcceptedEvent) (t t' : Timeline)
    → replay_event res e t ≡ ok t'
    → (e.sequence ≡ suc t.state.last_sequence)
      × (e.expected_revision ≡ t.state.source_revision)
      × (e.accepted_revision ≡ suc t.state.source_revision)
      × (t'.state.source_revision ≡ suc t.state.source_revision)
      × (t'.state.last_sequence ≡ suc t.state.last_sequence)
unfolding replay_event
replay_event-numbers res e t t' h =
    let (k, s, x, a) = envelope-numbers t.state e h in
    let (replaced, _, k') =
      >>=-eq-ok (replay_replacement_set e (lookup e.id res.replacements_by_target) t) _ k in
    let (own, _, k'') = >>=-eq-ok (replay_own_body res e replaced) _ k' in
    (s, x, a, ground arith, ground arith)

replay_events-Numbered :
    (res : CorrectionResolution) (es : List AcceptedEvent) (n : ℕ) (t t' : Timeline)
    → t.state.source_revision ≡ n
    → t.state.last_sequence ≡ n
    → replay_events res es t ≡ ok t'
    → Numbered n es
      × (t'.state.source_revision ≡ n + length es)
      × (t'.state.last_sequence ≡ n + length es)
unfolding replay_events
replay_events-Numbered res [] n t t' r s h = (tt, ground arith, ground arith)
replay_events-Numbered res (e ∷ es) n t t' r s h =
    let (u, first_ok, rest) = >>=-eq-ok (replay_event res e t) _ h in
    let (a, b, c, d, f) = replay_event-numbers res e t u first_ok in
    let (numbered, r', s') =
      replay_events-Numbered res es (suc n) u t' (omega arith) (omega arith) rest in
    ((omega arith, omega arith, omega arith, numbered), omega arith, omega arith)

initial-numbers :
    (setup : AcceptedSetup) (state : GameState)
    → create_initial_state setup ≡ ok state
    → (state.source_revision ≡ 0) × (state.last_sequence ≡ 0)
unfolding create_initial_state initial_state
initial-numbers setup state h = ground arith

-- A replay that succeeds has read, in the order of the sequence numbers, events whose sequences and
-- revisions are 1, 2, … without a gap, and ends at the number of the events.
pub replay_effective-Numbered :
    (setup : AcceptedSetup) (events : List AcceptedEvent) (state : GameState)
    → replay_effective setup events ≡ ok state
    → Numbered 0 (by_sequence events)
      × (state.source_revision ≡ length events)
      × (state.last_sequence ≡ length events)
unfolding replay_effective replay_game_timeline
replay_effective-Numbered setup events state h =
    let ordered = by_sequence events in
    let (t, replayed, same) = >>=-eq-ok (replay_game_timeline setup events) _ h in
    let (res, _, k) = >>=-eq-ok (resolve_corrections ordered) _ replayed in
    let (start, created, k') = >>=-eq-ok (create_initial_state setup) _ k in
    let (r, s) = initial-numbers setup start created in
    let (numbered, r', s') =
      replay_events-Numbered res ordered 0 (record { state = start; steps = [] }) t r s k' in
    let l = length-sort_by {0} (λ (e : AcceptedEvent). e.sequence) events in
    (numbered, ground (arith, same, r', l), ground (arith, same, s', l))
