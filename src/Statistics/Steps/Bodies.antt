-- ===== src/Statistics/Steps/Bodies.antt =====
-- The posting of every body, and of a whole replay.
use baseballstattrack.Common.{
  ℕ, ◌+◌, ◌≡◌, refl, inl, inr, true, ◌&&◌, none, List, [], ◌∷◌, Dict, if◌then◌else◌, ◌==◌, nat_eq,
  length, ok, arith, Bool-cases, >>=-eq-ok, ◌>>=◌, ◌⊎◌,
}
use baseballstattrack.Events.Enums.{GameSide, home, away, StealResult, PlayType}
use baseballstattrack.Events.Equality.{outcome_eq, play_type_eq}
use baseballstattrack.Events.State.{AcceptedSetup}
use baseballstattrack.Events.Schema.{is_out, steal_scores}
use baseballstattrack.Events.Bodies.{RunnerMovement, StolenBaseAttempt, RunnerPlay, PitchingChange}
use baseballstattrack.Engine.Movement.{out_movements}
use baseballstattrack.Engine.Movement.Runs.{counted_runs}
use baseballstattrack.Engine.Plays.{stolen_movement}
use baseballstattrack.Engine.Replay.{EffectiveReplayStep}
use baseballstattrack.Statistics.Tally.{
  Tallies, opposite, step_batting_side, credit_pitcher, record_inning, apply_counting_run,
}
use baseballstattrack.Statistics.Tally.Totals.{share-zero, share-add}
use baseballstattrack.Statistics.Tally.Posting.{
  Unposted, Unposted-trans, credit_pitcher-Unposted, record_inning-Unposted,
}
use baseballstattrack.Statistics.Tally.Runs.{counted, apply_counting_run-Posted}
use baseballstattrack.Statistics.Plays.{credit_out_path}
use baseballstattrack.Statistics.Steps.{
  retire, credit_caught_stealing, credit_stolen_base, credit_runner_movements, starting_appearance,
  tally_stolen_base_attempt, tally_runner_play, tally_start, tally_pitching_change,
}
use baseballstattrack.Statistics.Steps.Defense.{credit_out_path-Unposted, credit_defense-Unposted}
use baseballstattrack.Statistics.Steps.Balance.{
  Balances, Unposted-Balances, Unposted-ok, retire-Unposted, caught_stealing-Unposted,
  stolen_base-Unposted,
}

-- The runs of an attempt to steal.
abbrev pub steal_runs : StolenBaseAttempt → ℕ
steal_runs s = if steal_scores s then 1 else 0

stolen_or_caught : (r : StealResult) → (r ≡ StealResult.stolen) ⊎ (r ≡ StealResult.caught)
stolen_or_caught StealResult.stolen = inl refl
stolen_or_caught StealResult.caught = inr refl

result_cases :
    (s : StolenBaseAttempt) → (s.result ≡ StealResult.stolen) ⊎ (s.result ≡ StealResult.caught)
result_cases s = stolen_or_caught s.result

module _ (index : Dict ℕ GameSide) (asked : GameSide) where
  steal_run-Balances :
      (step : EffectiveReplayStep) (s : StolenBaseAttempt) (t u : Tallies) (side : GameSide)
      → (if steal_scores s
          then apply_counting_run index step (stolen_movement s) side none t
          else ok t)
        ≡ ok u
      → Balances index asked t u side (steal_runs s) 0
  steal_run-Balances step s t u side e = elim (Bool-cases (steal_scores s)) [
    | inl scores ↦
        let p =
          apply_counting_run-Posted index asked step (stolen_movement s) side none t u
            (rw scores at e) in
        let worth : counted (stolen_movement s) ≡ steal_runs s = ground arith in
        let none_hit = share-zero asked side in rw (← worth) (omega arith)
    | inr safe ↦
        let nothing : steal_runs s ≡ 0 = ground arith in
        rw nothing
          (Unposted-Balances index asked t u side (Unposted-ok index asked t u (rw safe at e)))
  ]

  stolen-Balances :
      (step : EffectiveReplayStep) (s : StolenBaseAttempt) (t u : Tallies) (side : GameSide)
      → (do
        stolen ← credit_stolen_base index true s.runner_id side t
        (if steal_scores s
            then apply_counting_run index step (stolen_movement s) side none stolen
            else ok stolen))
        ≡ ok u
      → Balances index asked t u side (steal_runs s) 0
  stolen-Balances step s t u side e =
      let (stolen, one, two) = >>=-eq-ok (credit_stolen_base index true s.runner_id side t) _ e in
      let p = stolen_base-Unposted index asked true s.runner_id side t stolen one in
      let q = steal_run-Balances step s stolen u side two in omega arith

  caught-Unposted :
      (step : EffectiveReplayStep) (s : StolenBaseAttempt) (t u : Tallies) (side : GameSide)
      → (do
        caught ← credit_caught_stealing index true s.runner_id side t
        retired ← retire index step (opposite side) 1 caught
        credit_out_path index s.fielders (opposite side) retired)
        ≡ ok u
      → Unposted index asked t u
  caught-Unposted step s t u side e =
      let (caught, one, k) = >>=-eq-ok (credit_caught_stealing index true s.runner_id side t) _ e in
      let (retired, two, three) = >>=-eq-ok (retire index step (opposite side) 1 caught) _ k in
      let p = caught_stealing-Unposted index asked true s.runner_id side t caught one in
      let q = retire-Unposted index asked step (opposite side) 1 caught retired two in
      let r = credit_out_path-Unposted index asked s.fielders (opposite side) retired u three in
      omega arith

  credit_runner_movements-Balances :
      (step : EffectiveReplayStep) (side : GameSide) (play_type : PlayType)
      (ms : List RunnerMovement) (t u : Tallies)
      → credit_runner_movements index step side play_type ms t ≡ ok u
      → Balances index asked t u side (counted_runs ms) 0
  unfolding credit_runner_movements
  credit_runner_movements-Balances step side play_type [] t u e =
      Unposted-Balances index asked t u side (Unposted-ok index asked t u e)
  credit_runner_movements-Balances step side play_type (m ∷ ms) t u e =
      let (scored, one, k1) = >>=-eq-ok (apply_counting_run index step m side none t) _ e in
      let (stolen, two, k2) =
        >>=-eq-ok
          (credit_stolen_base index (play_type == PlayType.stolen_base) m.runner_id side scored) _
          k1 in
      let (caught, three, four) =
        >>=-eq-ok
          (credit_caught_stealing index (play_type == PlayType.caught_stealing && is_out m.to)
            m.runner_id side stolen)
          _ k2 in
      let p1 = apply_counting_run-Posted index asked step m side none t scored one in
      let p2 = stolen_base-Unposted index asked _ m.runner_id side scored stolen two in
      let p3 = caught_stealing-Unposted index asked _ m.runner_id side stolen caught three in
      let p4 = credit_runner_movements-Balances step side play_type ms caught u four in
      let sum = share-add asked side (counted m) (counted_runs ms) in
      let split : counted_runs (m ∷ ms) ≡ counted m + counted_runs ms = ground arith in
      let none_hit = share-zero asked side in rw split (omega arith)

  pub tally_runner_play-Balances :
      (step : EffectiveReplayStep) (p : RunnerPlay) (t u : Tallies) (side : GameSide)
      → step_batting_side step ≡ ok side
      → tally_runner_play index step p t ≡ ok u
      → Balances index asked t u side (counted_runs p.movements) 0
  unfolding tally_runner_play
  tally_runner_play-Balances step p t u side bats e =
      let outs = out_movements p.movements in
      let (touched, one, k1) = >>=-eq-ok (record_inning step side t) _ (rw bats at e) in
      let (moved, two, k2) =
        >>=-eq-ok (credit_runner_movements index step side p.play_type p.movements touched) _ k1 in
      let (retired, three, four) =
        >>=-eq-ok (retire index step (opposite side) (length outs) moved) _ k2 in
      let p1 = record_inning-Unposted index asked step side t touched one in
      let p2 =
        credit_runner_movements-Balances step side p.play_type p.movements touched moved two in
      let p3 = retire-Unposted index asked step (opposite side) (length outs) moved retired three in
      let p4 =
        credit_defense-Unposted index asked (opposite side) p.fielding_credits outs retired u
          four in
      omega arith

  pub tally_start-Unposted :
      (setup : AcceptedSetup) (t u : Tallies)
      → tally_start index setup t ≡ ok u
      → Unposted index asked t u
  unfolding tally_start
  tally_start-Unposted setup t u e =
      let (visitors, one, two) =
        >>=-eq-ok
          (credit_pitcher index setup.sides.away_side.starting_pitcher_id away starting_appearance
            t)
          _ e in
      Unposted-trans index asked t visitors u
        (credit_pitcher-Unposted index asked _ away starting_appearance t visitors (λ c. refl)
          (λ c. refl) one)
        (credit_pitcher-Unposted index asked _ home starting_appearance visitors u (λ c. refl)
          (λ c. refl) two)

  pub tally_pitching_change-Unposted :
      (c : PitchingChange) (t u : Tallies)
      → tally_pitching_change index c t ≡ ok u
      → Unposted index asked t u
  unfolding tally_pitching_change
  tally_pitching_change-Unposted c t u e =
      credit_pitcher-Unposted index asked c.incoming_pitcher_id c.side _ t u (λ p. refl) (λ p. refl)
        e

  pub tally_stolen_base_attempt-Balances :
      (step : EffectiveReplayStep) (s : StolenBaseAttempt) (t u : Tallies) (side : GameSide)
      → step_batting_side step ≡ ok side
      → tally_stolen_base_attempt index step s t ≡ ok u
      → Balances index asked t u side (steal_runs s) 0
  unfolding tally_stolen_base_attempt
  tally_stolen_base_attempt-Balances step s t u side bats e =
      let (touched, one, two) = >>=-eq-ok (record_inning step side t) _ (rw bats at e) in
      let p = record_inning-Unposted index asked step side t touched one in
      elim (result_cases s) [
        | inl stolen ↦
            let q = stolen-Balances step s touched u side (rw stolen at two) in omega arith
        | inr caught ↦
            let q = caught-Unposted step s touched u side (rw caught at two) in
            let nothing : steal_runs s ≡ 0 = ground arith in
            rw nothing (Unposted-Balances index asked t u side (omega arith))
      ]
