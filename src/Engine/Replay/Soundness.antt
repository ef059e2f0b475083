-- ===== src/Engine/Replay/Soundness.antt =====
-- The invariant through a whole replay.
use baseballstattrack.Common.{
  ◌≡◌, ap, true, List, [], ◌∷◌, ◌++◌, nat_eq, ok, >>=-eq-ok, ok-injective,
}
use baseballstattrack.Events.State.{Bases, AcceptedEvent, AcceptedSetup, GameState}
use baseballstattrack.Events.Bodies.{
  PlayBody, EventBody, play, plate_appearance_recorded, runner_play_recorded,
  runner_advance_recorded, runner_out_recorded, stolen_base_attempt_recorded,
  defensive_substitution_made, defensive_alignment_changed, pitching_change_made,
}
use baseballstattrack.Events.Schema.{play_body_valid, event_body_valid}
use baseballstattrack.Engine.Roster.Runners.{OffBase}
use baseballstattrack.Engine.Setup.Initial.{create_initial_state-Sound}
use baseballstattrack.Engine.Apply.{apply_body, acknowledge}
use baseballstattrack.Engine.Apply.Soundness.{Sound}
use baseballstattrack.Engine.Apply.Soundness.Batters.{EntersOffBase}
use baseballstattrack.Engine.Apply.Invariant.{BodyEnters, apply_body-Sound}
use baseballstattrack.Engine.Replay.{
  Timeline, EffectiveReplayStep, record_step, replay_game_timeline,
}
use baseballstattrack.Engine.Replay.Induction.{replay_keeps}

-- The batter of a plate appearance, whatever becomes of him, and the incoming player of a defensive
-- substitution stand on no base.
abbrev pub BodyOffBase : Bases → EventBody → Type 0
BodyOffBase bases (play (plate_appearance_recorded p)) = OffBase bases p.batter_id
BodyOffBase bases (play (defensive_substitution_made s)) = OffBase bases s.incoming_player_id
BodyOffBase bases _ = Unit

-- At each step, with the bases before it.
abbrev pub StepsOffBase : List EffectiveReplayStep → Type 0
StepsOffBase [] = Unit
StepsOffBase (s ∷ steps) = BodyOffBase s.before.bases s.body × StepsOffBase steps

valid-EntersOffBase :
    (bases : Bases) (p : PlayBody)
    → play_body_valid p ≡ true
    → BodyOffBase bases (play p)
    → EntersOffBase bases p
unfolding play_body_valid
valid-EntersOffBase bases (plate_appearance_recorded p) valid off = off
valid-EntersOffBase bases (defensive_substitution_made s) valid off = off
valid-EntersOffBase bases (runner_play_recorded p) valid off = valid
valid-EntersOffBase bases (runner_advance_recorded m) valid off = tt
valid-EntersOffBase bases (runner_out_recorded o) valid off = tt
valid-EntersOffBase bases (stolen_base_attempt_recorded a) valid off = tt
valid-EntersOffBase bases (defensive_alignment_changed a) valid off = tt
valid-EntersOffBase bases (pitching_change_made c) valid off = tt

valid-BodyEnters :
    (bases : Bases) (body : EventBody)
    → event_body_valid body ≡ true
    → BodyOffBase bases body
    → BodyEnters bases body
unfolding event_body_valid
valid-BodyEnters bases (play p) valid off = valid-EntersOffBase bases p valid off
valid-BodyEnters bases body valid off = tt

StepsOffBase-append :
    (xs ys : List EffectiveReplayStep) → StepsOffBase (xs ++ ys) → StepsOffBase xs × StepsOffBase ys
StepsOffBase-append [] ys h = (tt, h)
StepsOffBase-append (x ∷ xs) ys h = let (a, b) = StepsOffBase-append xs ys h.1 in ((h.0, a), b)

-- What a replay keeps: its state is sound, if the condition holds of its steps so far.
abbrev SoundIf : Timeline → Type 0
SoundIf t = StepsOffBase t.steps → Sound t.state

record_step-SoundIf :
    (step : EffectiveReplayStep) (t u : Timeline)
    → step.before ≡ t.state
    → event_body_valid step.body ≡ true
    → record_step step t ≡ ok u
    → SoundIf t
    → SoundIf u
record_step-SoundIf step t u same valid h sound off =
    let (next, applied, done) = >>=-eq-ok (apply_body t.state step.body) _ h in
    let recorded = ok-injective _ u done in
    let both : StepsOffBase (t.steps ++ step ∷ []) =
      rw (ap (λ (r : Timeline). r.steps) recorded) off in
    let (before, (here, _)) = StepsOffBase-append t.steps (step ∷ []) both in
    let enters : BodyEnters t.state.bases step.body =
      rw same at (valid-BodyEnters step.before.bases step.body valid here) in
    rw (← ap (λ (r : Timeline). r.state) recorded)
      (apply_body-Sound t.state step.body next applied enters (sound before))

acknowledge-Sound :
    (event : AcceptedEvent) (state : GameState) → Sound state → Sound (acknowledge event state)
acknowledge-Sound event state sound = record {
  outs = sound.outs;
  pitchers = sound.pitchers;
  runners = record { apart = sound.runners.apart; tracked = sound.runners.tracked };
  clock = sound.clock;
}

-- A game replayed from an accepted setup, through any log of events and corrections, is in a sound
-- state, if at each step of its timeline, with the bases before that step, the batter of a plate
-- appearance, whatever becomes of him, an out included, and the incoming player of a defensive
-- substitution stand on no base.
pub replay_game_timeline-Sound :
    (setup : AcceptedSetup) (events : List AcceptedEvent) (t : Timeline)
    → replay_game_timeline setup events ≡ ok t
    → StepsOffBase t.steps
    → Sound t.state
replay_game_timeline-Sound setup events t h off =
    replay_keeps SoundIf record_step-SoundIf
      (λ event v sound steps. acknowledge-Sound event v.state (sound steps)) setup events t h
      (λ start created steps. (create_initial_state-Sound setup start created).0) off
