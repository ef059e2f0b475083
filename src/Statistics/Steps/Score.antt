-- ===== src/Statistics/Steps/Score.antt =====
-- The score of a replay is the runs of its steps.
use baseballstattrack.Common.{
  ℕ, ◌+◌, ◌≡◌, refl, ap, ◌∙◌, true, List, [], ◌∷◌, ◌++◌, ok, arith, >>=-eq-ok, ok-injective,
}
use baseballstattrack.Events.Enums.{GameSide}
use baseballstattrack.Events.Equality.{side_eq}
use baseballstattrack.Events.State.{at_side, AcceptedEvent, AcceptedSetup, GameState}
use baseballstattrack.Events.Bodies.{
  PlayBody, StolenBaseAttempt, EventBody, play, plate_appearance_recorded, runner_advance_recorded,
  runner_out_recorded, stolen_base_attempt_recorded, runner_play_recorded,
}
use baseballstattrack.Events.Schema.{event_body_valid}
use baseballstattrack.Engine.Innings.{batting_side}
use baseballstattrack.Engine.Movement.Runs.{counted_runs, credited}
use baseballstattrack.Engine.Plays.{steal_movement}
use baseballstattrack.Engine.Setup.{create_initial_state, initial_state}
use baseballstattrack.Engine.Apply.{apply_body}
use baseballstattrack.Engine.Apply.Scoring.{play_movements}
use baseballstattrack.Engine.Apply.Results.{apply_play-score}
use baseballstattrack.Engine.Apply.Lifecycle.{lifecycle-StatusMoved}
use baseballstattrack.Engine.Replay.{
  Timeline, EffectiveReplayStep, record_step, replay_game_timeline,
}
use baseballstattrack.Engine.Replay.Induction.{replay_keeps}
use baseballstattrack.Statistics.Tally.Totals.{share, share-zero}
use baseballstattrack.Statistics.Steps.Bodies.{steal_runs}
use baseballstattrack.Statistics.Steps.Totals.{body_runs, total_runs}

steal-runs :
    (state : GameState) (s : StolenBaseAttempt)
    → counted_runs (steal_movement state s ∷ []) ≡ steal_runs s
unfolding steal_movement
steal-runs state s = ground arith

play-runs :
    (state : GameState) (p : PlayBody) → counted_runs (play_movements state p) ≡ body_runs (play p)
play-runs state (plate_appearance_recorded p) = refl
play-runs state (runner_advance_recorded m) = refl
play-runs state (runner_out_recorded o) = ground arith
play-runs state (stolen_base_attempt_recorded s) = steal-runs state s
play-runs state (runner_play_recorded p) = refl
play-runs state _ = refl

share-credited :
    (state : GameState) (asked : GameSide) (n : ℕ)
    → credited state asked n ≡ share asked (batting_side state) n
unfolding share
share-credited state asked n =
    ground (
      arith,
      side_eq.beq_iff asked (batting_side state),
      side_eq.beq_iff (batting_side state) asked,
    )

total_runs-append :
    (asked : GameSide) (xs : List EffectiveReplayStep) (step : EffectiveReplayStep)
    → total_runs asked (xs ++ step ∷ [])
      ≡ total_runs asked xs + share asked (batting_side step.before) (body_runs step.body)
total_runs-append asked [] step = omega arith
total_runs-append asked (x ∷ xs) step = let rest = total_runs-append asked xs step in omega arith

body-score :
    (asked : GameSide) (state : GameState) (body : EventBody) (next : GameState)
    → apply_body state body ≡ ok next
    → at_side next.score asked
      ≡ at_side state.score asked + share asked (batting_side state) (body_runs body)
unfolding apply_body
body-score asked state (play p) next h =
    apply_play-score state p next asked h
    ∙ ap (λ n. at_side state.score asked + n)
        (share-credited state asked (counted_runs (play_movements state p))
          ∙ ap (λ n. share asked (batting_side state) n) (play-runs state p))
body-score asked state body next h =
    let same = ap (λ s. at_side s asked) (lifecycle-StatusMoved state body next refl h).score in
    let none_scored = share-zero asked (batting_side state) in omega arith

-- The score of the side asked for is the runs of the steps recorded so far.
abbrev IsScored : GameSide → Timeline → Type 0
IsScored asked t = at_side t.state.score asked ≡ total_runs asked t.steps

record_step-IsScored :
    (asked : GameSide) (step : EffectiveReplayStep) (t u : Timeline)
    → step.before ≡ t.state
    → event_body_valid step.body ≡ true
    → record_step step t ≡ ok u
    → IsScored asked t
    → IsScored asked u
record_step-IsScored asked step t u same valid h scored =
    let (next, applied, done) = >>=-eq-ok (apply_body t.state step.body) _ h in
    let here = body-score asked t.state step.body next applied in
    let sum = total_runs-append asked t.steps step in
    let side = ap (λ (s : GameState). share asked (batting_side s) (body_runs step.body)) same in
    rw (← ok-injective _ u done) (omega arith)

initial-score :
    (asked : GameSide) (setup : AcceptedSetup) (start : GameState)
    → create_initial_state setup ≡ ok start
    → at_side start.score asked ≡ 0
unfolding create_initial_state initial_state
initial-score asked setup start h = ground arith

-- The score that a replay ends with is, for each side, the number of runs that count in the steps of
-- its timeline in which that side was at bat: corrections, suspensions and substitutions in between
-- neither add a run nor lose one.
pub replay_game_timeline-score :
    (asked : GameSide) (setup : AcceptedSetup) (events : List AcceptedEvent) (t : Timeline)
    → replay_game_timeline setup events ≡ ok t
    → at_side t.state.score asked ≡ total_runs asked t.steps
replay_game_timeline-score asked setup events t h =
    replay_keeps (IsScored asked) (record_step-IsScored asked) (λ event v p. p) setup events t h
      (λ start created. initial-score asked setup start created)
