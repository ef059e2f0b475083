-- ===== src/Engine/Replay/Induction.antt =====
-- What every step of a replay whose body has passed its schema keeps holds of the replay.
use baseballstattrack.Common.{
  ◌≡◌, refl, true, inl, inr, Option, none, some, List, [], ◌∷◌, nat_eq, contains, lookup, ok, ◌>>=◌,
  arith, Bool-cases, >>=-eq-ok, >>-eq-ok, ok-injective,
}
use baseballstattrack.Events.State.{AcceptedEvent, AcceptedSetup, GameState}
use baseballstattrack.Events.Bodies.{Replacement, EventBody, play}
use baseballstattrack.Events.Schema.{event_body_valid}
use baseballstattrack.Events.Parse.{parse_event_body}
use baseballstattrack.Engine.Setup.{create_initial_state}
use baseballstattrack.Engine.Apply.{acknowledge, validate_next_envelope}
use baseballstattrack.Engine.Corrections.{
  ReplacementSet, CorrectionResolution, by_sequence, resolve_corrections,
}
use baseballstattrack.Engine.Corrections.Validity.{
  all_valid, SetsValid, resolve_corrections-SetsValid,
}
use baseballstattrack.Engine.Replay.{
  Timeline, EffectiveReplayStep, replacement_step, event_step, record_step, replay_replacements,
  replay_event, replay_events, replay_own_body, replay_replacement_set, replay_game_timeline,
}

parsed-valid :
    (event : AcceptedEvent) (body : EventBody)
    → parse_event_body event.body event.schema_version ≡ ok body
    → event_body_valid body ≡ true
unfolding parse_event_body
parsed-valid event body h = ground arith

split_all :
    (r : Replacement) (rs : List Replacement)
    → all_valid (r ∷ rs) ≡ true
    → (event_body_valid (play r.body) ≡ true) × (all_valid rs ≡ true)
unfolding event_body_valid
split_all r rs h = ground arith

module _ (P : Timeline → Type 0)
    (recorded : (step : EffectiveReplayStep) (t u : Timeline)
      → step.before ≡ t.state
      → event_body_valid step.body ≡ true
      → record_step step t ≡ ok u
      → P t
      → P u)
    (acknowledged : (event : AcceptedEvent) (t : Timeline)
      → P t
      → P (record t { state = acknowledge event t.state })) where
  replacements_keep :
      (event : AcceptedEvent) (set : ReplacementSet) (ps : List Replacement) (t u : Timeline)
      → all_valid ps ≡ true
      → replay_replacements event set ps t ≡ ok u
      → P t
      → P u
  unfolding replay_replacements
  replacements_keep event set [] t u valid h p = rw (← ok-injective t u h) p
  replacements_keep event set (r ∷ rs) t u valid h p =
      let (first, others) = split_all r rs valid in
      let (v, one, rest) = >>=-eq-ok (record_step (replacement_step event set r t.state) t) _ h in
      replacements_keep event set rs v u others rest
        (recorded (replacement_step event set r t.state) t v refl first one p)

  replacement_set_keeps :
      (event : AcceptedEvent) (set : Option ReplacementSet) (t u : Timeline)
      → ((s : ReplacementSet) → set ≡ some s → all_valid s.replacements ≡ true)
      → replay_replacement_set event set t ≡ ok u
      → P t
      → P u
  replacement_set_keeps event none t u valid h p = rw (← ok-injective t u h) p
  replacement_set_keeps event (some set) t u valid h p =
      replacements_keep event set set.replacements t u (valid set refl) h p

  own_body_keeps :
      (res : CorrectionResolution) (event : AcceptedEvent) (t u : Timeline)
      → replay_own_body res event t ≡ ok u
      → P t
      → P u
  unfolding replay_own_body
  own_body_keeps res event t u h p = elim (Bool-cases (contains res.suppressed event.id)) [
    | inl hidden ↦ let same : t ≡ u = ground (arith, hidden) in rw (← same) p
    | inr shown ↦
        let parsed : (parse_event_body event.body event.schema_version >>= λ body.
        record_step (event_step event body t.state) t)
            ≡ ok u =
          ground (arith, shown) in
        let (body, read, one) =
          >>=-eq-ok (parse_event_body event.body event.schema_version) _ parsed in
        recorded (event_step event body t.state) t u refl (parsed-valid event body read) one p
  ]

  event_keeps :
      (res : CorrectionResolution) (event : AcceptedEvent) (t u : Timeline)
      → SetsValid res.replacements_by_target
      → replay_event res event t ≡ ok u
      → P t
      → P u
  unfolding replay_event
  event_keeps res event t u sets h p =
      let set = lookup event.id res.replacements_by_target in
      let (replaced, set_ok, k) =
        >>=-eq-ok (replay_replacement_set event set t) _
          (>>-eq-ok (validate_next_envelope t.state event) _ h) in
      let (own, own_ok, done) = >>=-eq-ok (replay_own_body res event replaced) _ k in
      rw (← ok-injective _ u done) (
        acknowledged event own (
          own_body_keeps res event replaced own own_ok
            (replacement_set_keeps event set t replaced (sets event.id) set_ok p)))

  events_keep :
      (res : CorrectionResolution) (es : List AcceptedEvent) (t u : Timeline)
      → SetsValid res.replacements_by_target
      → replay_events res es t ≡ ok u
      → P t
      → P u
  unfolding replay_events
  events_keep res [] t u sets h p = rw (← ok-injective t u h) p
  events_keep res (e ∷ es) t u sets h p =
      let (v, one, rest) = >>=-eq-ok (replay_event res e t) _ h in
      events_keep res es v u sets rest (event_keeps res e t v sets one p)

  pub replay_keeps :
      (setup : AcceptedSetup) (events : List AcceptedEvent) (t : Timeline)
      → replay_game_timeline setup events ≡ ok t
      → ((start : GameState)
          → create_initial_state setup ≡ ok start
          → P (record { state = start; steps = [] }))
      → P t
  unfolding replay_game_timeline
  replay_keeps setup events t h starts =
      let ordered = by_sequence events in
      let (res, resolved, k) = >>=-eq-ok (resolve_corrections ordered) _ h in
      let (start, created, k') = >>=-eq-ok (create_initial_state setup) _ k in
      events_keep res ordered (record { state = start; steps = [] }) t
        (resolve_corrections-SetsValid ordered res resolved) k' (starts start created)
