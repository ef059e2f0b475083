-- ===== src/Statistics/Steps/Totals.antt =====
-- The totals of a replay: what its steps post.
use baseballstattrack.Common.{
  ℕ, ◌+◌, ◌≡◌, inl, inr, List, [], ◌∷◌, Dict, Result, ok, arith, Option-cases, >>=-eq-ok, ◌>>=◌,
}
use baseballstattrack.Events.Enums.{GameSide, top, bottom}
use baseballstattrack.Events.State.{AcceptedSetup}
use baseballstattrack.Events.Bodies.{
  EventBody, play, plate_appearance_recorded, runner_advance_recorded, runner_out_recorded,
  stolen_base_attempt_recorded, runner_play_recorded, pitching_change_made, game_started,
}
use baseballstattrack.Engine.Innings.{batting_side}
use baseballstattrack.Engine.Movement.Runs.{counted_runs}
use baseballstattrack.Engine.Replay.{EffectiveReplayStep}
use baseballstattrack.Statistics.Tally.{Tallies, step_batting_side}
use baseballstattrack.Statistics.Tally.Totals.{share, Posted}
use baseballstattrack.Statistics.Steps.{
  tally_body, tally_steps, tally_plate_appearance, tally_runner_advance, tally_runner_out,
  tally_stolen_base_attempt, tally_runner_play,
}
use baseballstattrack.Statistics.Steps.Balance.{
  hit_value, Balances, Unposted-Balances, Unposted-ok, tally_plate_appearance-Balances,
  tally_runner_advance-Balances, tally_runner_out-Balances,
}
use baseballstattrack.Statistics.Steps.Bodies.{
  steal_runs, tally_runner_play-Balances, tally_start-Unposted, tally_pitching_change-Unposted,
  tally_stolen_base_attempt-Balances,
}

-- The runs and the hits that a body records.
abbrev pub body_runs : EventBody → ℕ
body_runs (play (plate_appearance_recorded p)) = counted_runs p.movements
body_runs (play (runner_advance_recorded m)) = counted_runs (m ∷ [])
body_runs (play (stolen_base_attempt_recorded s)) = steal_runs s
body_runs (play (runner_play_recorded p)) = counted_runs p.movements
body_runs _ = 0

abbrev pub body_hits : EventBody → ℕ
body_hits (play (plate_appearance_recorded p)) = hit_value p.outcome
body_hits _ = 0

-- The runs and the hits of a side in a replay.
abbrev pub total_runs : GameSide → List EffectiveReplayStep → ℕ
total_runs asked [] = 0
total_runs asked (step ∷ steps) =
    share asked (batting_side step.before) (body_runs step.body) + total_runs asked steps

abbrev pub total_hits : GameSide → List EffectiveReplayStep → ℕ
total_hits asked [] = 0
total_hits asked (step ∷ steps) =
    share asked (batting_side step.before) (body_hits step.body) + total_hits asked steps

-- A handler that returns knows the side at bat.
side_at_bat :
    (step : EffectiveReplayStep) (side : GameSide)
    → step_batting_side step ≡ ok side
    → side ≡ batting_side step.before
unfolding step_batting_side batting_side
side_at_bat step side e = elim (Option-cases step.before.half) [
  | inl no_half ↦ ground arith
  | inr (top, at) ↦ ground arith
  | inr (bottom, at) ↦ ground arith
]

known_side :
    (step : EffectiveReplayStep) (k : GameSide → Result Tallies) (u : Tallies)
    → (step_batting_side step >>= k) ≡ ok u
    → step_batting_side step ≡ ok (batting_side step.before)
known_side step k u e =
    let (side, one, _) = >>=-eq-ok (step_batting_side step) k e in
    rw (← side_at_bat step side one) one

module _ (index : Dict ℕ GameSide) (setup : AcceptedSetup) (asked : GameSide) where
  tally_body-Balances :
      (step : EffectiveReplayStep) (body : EventBody) (t u : Tallies)
      → tally_body index setup step body t ≡ ok u
      → Balances index asked t u (batting_side step.before) (body_runs body) (body_hits body)
  unfolding tally_body tally_plate_appearance tally_runner_advance tally_runner_out
      tally_stolen_base_attempt tally_runner_play
  tally_body-Balances step (play (plate_appearance_recorded p)) t u e =
      tally_plate_appearance-Balances index asked step p t u (batting_side step.before)
        (known_side step _ u e) e
  tally_body-Balances step (play (runner_advance_recorded m)) t u e =
      tally_runner_advance-Balances index asked step m t u (batting_side step.before)
        (known_side step _ u e) e
  tally_body-Balances step (play (runner_out_recorded o)) t u e =
      tally_runner_out-Balances index asked step o t u (batting_side step.before)
        (known_side step _ u e) e
  tally_body-Balances step (play (stolen_base_attempt_recorded s)) t u e =
      tally_stolen_base_attempt-Balances index asked step s t u (batting_side step.before)
        (known_side step _ u e) e
  tally_body-Balances step (play (runner_play_recorded p)) t u e =
      tally_runner_play-Balances index asked step p t u (batting_side step.before)
        (known_side step _ u e) e
  tally_body-Balances step (play (pitching_change_made c)) t u e =
      Unposted-Balances index asked t u (batting_side step.before)
        (tally_pitching_change-Unposted index asked c t u e)
  tally_body-Balances step game_started t u e =
      Unposted-Balances index asked t u (batting_side step.before)
        (tally_start-Unposted index asked setup t u e)
  tally_body-Balances step _ t u e =
      Unposted-Balances index asked t u (batting_side step.before) (Unposted-ok index asked t u e)

  pub tally_steps-Posted :
      (steps : List EffectiveReplayStep) (t u : Tallies)
      → tally_steps index setup steps t ≡ ok u
      → Posted index asked t u
          (total_runs asked steps)
          (total_hits asked steps)
          (total_runs asked steps)
          (total_hits asked steps)
          (total_runs asked steps)
  unfolding tally_steps
  tally_steps-Posted [] t u e = Unposted-ok index asked t u e
  tally_steps-Posted (step ∷ steps) t u e =
      let (v, one, more) = >>=-eq-ok (tally_body index setup step step.body t) _ e in
      let p = tally_body-Balances step step.body t v one in
      let q = tally_steps-Posted steps v u more in omega arith
