-- ===== src/Statistics/Steps/Balance.antt =====
-- Each step posts its runs and hits to every account alike.
use baseballstattrack.Common.{
  ℕ, ◌+◌, ◌≡◌, refl, inl, inr, Bool, true, false, ◌||◌, Option, none, some, List, [], ◌∷◌, Dict,
  if◌then◌else◌, ◌==◌, nat_eq, length, Result, ok, reject, arith, Bool-cases, >>=-eq-ok,
  checked-eq-ok, ok-injective,
}
use baseballstattrack.Events.Enums.{GameSide, Outcome}
use baseballstattrack.Events.Equality.{outcome_eq, play_type_eq}
use baseballstattrack.Events.State.{at_side}
use baseballstattrack.Events.Bodies.{RunnerMovement, PlateAppearance, RunnerOut}
use baseballstattrack.Engine.Movement.{out_movements}
use baseballstattrack.Engine.Movement.Runs.{counted_runs}
use baseballstattrack.Engine.Replay.{EffectiveReplayStep}
use baseballstattrack.Statistics.Counters.{BattingCounters, PitchingCounters}
use baseballstattrack.Statistics.Tally.{
  Tallies, opposite, step_batting_side, credit_batter, credit_pitcher, record_inning,
  apply_counting_run,
}
use baseballstattrack.Statistics.Tally.Totals.{share, share-zero, share-add, Posted}
use baseballstattrack.Statistics.Tally.Posting.{
  Unposted, Unposted-refl, credit_batter-Posted, credit_pitcher-Posted, credit_batter-Unposted,
  credit_pitcher-Unposted, record_inning-Unposted,
}
use baseballstattrack.Statistics.Tally.Runs.{counted, apply_counting_run-Posted}
use baseballstattrack.Statistics.Plays.{is_hit, batter_outcome, pitcher_outcome, credit_out_path}
use baseballstattrack.Statistics.Steps.{
  retire, credit_caught_stealing, credit_stolen_base, is_caught_stealing, tally_plate_appearance,
  tally_runner_advance, tally_runner_out,
}
use baseballstattrack.Statistics.Credits.{
  credit_runs, credit_defense, credit_multiple_play, participants,
}
use baseballstattrack.Statistics.Steps.Defense.{
  credit_out_path-Unposted, credit_defense-Unposted, credit_multiple_play-Unposted,
}

-- One for a hit.
abbrev pub hit_value : Outcome → ℕ
hit_value o = if is_hit o then 1 else 0

batter_outcome-runs : (o : Outcome) (c : BattingCounters) → (batter_outcome o c).runs ≡ c.runs + 0
unfolding batter_outcome
batter_outcome-runs o c = omega arith

batter_outcome-hits :
    (o : Outcome) (c : BattingCounters) → (batter_outcome o c).hits ≡ c.hits + hit_value o
unfolding batter_outcome
batter_outcome-hits o c = ground arith

pitcher_outcome-runs :
    (o : Outcome) (c : PitchingCounters) → (pitcher_outcome o c).runs_allowed ≡ c.runs_allowed + 0
unfolding pitcher_outcome
pitcher_outcome-runs o c = omega arith

pitcher_outcome-hits :
    (o : Outcome) (c : PitchingCounters)
    → (pitcher_outcome o c).hits_allowed ≡ c.hits_allowed + hit_value o
unfolding pitcher_outcome
pitcher_outcome-hits o c = ground arith

module _ (index : Dict ℕ GameSide) (asked : GameSide) where
  -- Runs and hits of a side, posted to every account.
  abbrev pub Balances : Tallies → Tallies → GameSide → ℕ → ℕ → Type 0
  Balances t u side runs hits =
      Posted index asked t u (share asked side runs) (share asked side hits) (share asked side runs)
        (share asked side hits) (share asked side runs)

  pub Unposted-Balances :
      (t u : Tallies) (side : GameSide) → Unposted index asked t u → Balances t u side 0 0
  Unposted-Balances t u side p = rw share-zero p

  pub Unposted-ok :
      (t u : Tallies) → ◌≡◌ {A = Result Tallies} (ok t) (ok u) → Unposted index asked t u
  Unposted-ok t u e = rw (← ok-injective t u e) (Unposted-refl index asked t)

  credit_runs-Balances :
      (step : EffectiveReplayStep) (side : GameSide) (batter : Option ℕ) (ms : List RunnerMovement)
      (t u : Tallies)
      → credit_runs index step side batter ms t ≡ ok u
      → Balances t u side (counted_runs ms) 0
  unfolding credit_runs
  credit_runs-Balances step side batter [] t u e = Unposted-Balances t u side (Unposted-ok t u e)
  credit_runs-Balances step side batter (m ∷ ms) t u e =
      let (v, one, more) = >>=-eq-ok (apply_counting_run index step m side batter t) _ e in
      let p = apply_counting_run-Posted index asked step m side batter t v one in
      let q = credit_runs-Balances step side batter ms v u more in
      let sum = share-add asked side (counted m) (counted_runs ms) in
      let split : counted_runs (m ∷ ms) ≡ counted m + counted_runs ms = ground arith in
      let none_hit = share-zero asked side in rw split (omega arith)

  multiple_play-Unposted :
      (side : GameSide) (outs : ℕ) (players : List ℕ) (t u : Tallies)
      → (if outs == 2 || outs == 3 then credit_multiple_play index side outs players t else ok t)
        ≡ ok u
      → Unposted index asked t u
  multiple_play-Unposted side outs players t u e = elim (Bool-cases (outs == 2 || outs == 3)) [
    | inl several ↦
        credit_multiple_play-Unposted index asked side outs players t u (rw several at e)
    | inr few ↦ Unposted-ok t u (rw few at e)
  ]

  pub tally_plate_appearance-Balances :
      (step : EffectiveReplayStep) (p : PlateAppearance) (t u : Tallies) (side : GameSide)
      → step_batting_side step ≡ ok side
      → tally_plate_appearance index step p t ≡ ok u
      → Balances t u side (counted_runs p.movements) (hit_value p.outcome)
  unfolding tally_plate_appearance
  tally_plate_appearance-Balances step p t u side bats e =
      let outs = out_movements p.movements in
      let (touched, one, k1) = >>=-eq-ok (record_inning step side t) _ (rw bats at e) in
      let (batted, two, k2) =
        >>=-eq-ok (credit_batter index p.batter_id side (batter_outcome p.outcome) touched) _ k1 in
      let (pitched, three, k3) =
        >>=-eq-ok
          (credit_pitcher index p.pitcher_id (opposite side) (pitcher_outcome p.outcome) batted) _
          k2 in
      let (_, k4) = checked-eq-ok (reject (p.outcome == Outcome.interference) _) _ k3 in
      let (scored, four, k5) =
        >>=-eq-ok (credit_runs index step side (some p.batter_id) p.movements pitched) _ k4 in
      let (retired, five, k6) =
        >>=-eq-ok (credit_pitcher index p.pitcher_id (opposite side) _ scored) _ k5 in
      let (fielded, six, seven) =
        >>=-eq-ok (credit_defense index (opposite side) p.fielding_credits outs retired) _ k6 in
      let p0 = record_inning-Unposted index asked step side t touched one in
      let p1 =
        credit_batter-Posted index asked p.batter_id side (batter_outcome p.outcome) 0
          (hit_value p.outcome) touched batted (batter_outcome-runs p.outcome)
          (batter_outcome-hits p.outcome) two in
      let p2 =
        credit_pitcher-Posted index asked p.pitcher_id side (pitcher_outcome p.outcome) 0
          (hit_value p.outcome) batted pitched (pitcher_outcome-runs p.outcome)
          (pitcher_outcome-hits p.outcome) three in
      let p3 = credit_runs-Balances step side (some p.batter_id) p.movements pitched scored four in
      let p4 =
        credit_pitcher-Unposted index asked p.pitcher_id (opposite side) _ scored retired
          (λ c. refl) (λ c. refl) five in
      let p5 =
        credit_defense-Unposted index asked (opposite side) p.fielding_credits outs retired fielded
          six in
      let p6 =
        multiple_play-Unposted (opposite side) (length outs) (participants p.fielding_credits outs)
          fielded u seven in
      let no_runs = share-zero asked side in omega arith

  pub tally_runner_advance-Balances :
      (step : EffectiveReplayStep) (m : RunnerMovement) (t u : Tallies) (side : GameSide)
      → step_batting_side step ≡ ok side
      → tally_runner_advance index step m t ≡ ok u
      → Balances t u side (counted_runs (m ∷ [])) 0
  unfolding tally_runner_advance
  tally_runner_advance-Balances step m t u side bats e =
      let (touched, one, two) = >>=-eq-ok (record_inning step side t) _ (rw bats at e) in
      let p = record_inning-Unposted index asked step side t touched one in
      let q = apply_counting_run-Posted index asked step m side none touched u two in
      let single : counted_runs (m ∷ []) ≡ counted m = ground arith in
      let none_hit = share-zero asked side in rw single (omega arith)

  pub retire-Unposted :
      (step : EffectiveReplayStep) (side : GameSide) (outs : ℕ) (t u : Tallies)
      → retire index step side outs t ≡ ok u
      → Unposted index asked t u
  retire-Unposted step side outs t u e =
      credit_pitcher-Unposted index asked (at_side step.before.active_pitcher side) side _ t u
        (λ c. refl) (λ c. refl) e

  pub caught_stealing-Unposted :
      (caught : Bool) (runner_id : ℕ) (side : GameSide) (t u : Tallies)
      → credit_caught_stealing index caught runner_id side t ≡ ok u
      → Unposted index asked t u
  caught_stealing-Unposted true runner_id side t u e =
      credit_batter-Unposted index asked runner_id side _ t u (λ c. refl) (λ c. refl) e
  caught_stealing-Unposted false runner_id side t u e = Unposted-ok t u e

  pub stolen_base-Unposted :
      (stolen : Bool) (runner_id : ℕ) (side : GameSide) (t u : Tallies)
      → credit_stolen_base index stolen runner_id side t ≡ ok u
      → Unposted index asked t u
  stolen_base-Unposted true runner_id side t u e =
      credit_batter-Unposted index asked runner_id side _ t u (λ c. refl) (λ c. refl) e
  stolen_base-Unposted false runner_id side t u e = Unposted-ok t u e

  pub tally_runner_out-Balances :
      (step : EffectiveReplayStep) (o : RunnerOut) (t u : Tallies) (side : GameSide)
      → step_batting_side step ≡ ok side
      → tally_runner_out index step o t ≡ ok u
      → Balances t u side 0 0
  unfolding tally_runner_out
  tally_runner_out-Balances step o t u side bats e =
      let (touched, one, k1) = >>=-eq-ok (record_inning step side t) _ (rw bats at e) in
      let (retired, two, k2) = >>=-eq-ok (retire index step (opposite side) 1 touched) _ k1 in
      let (fielded, three, four) =
        >>=-eq-ok (credit_out_path index o.fielders (opposite side) retired) _ k2 in
      let p1 = record_inning-Unposted index asked step side t touched one in
      let p2 = retire-Unposted step (opposite side) 1 touched retired two in
      let p3 =
        credit_out_path-Unposted index asked o.fielders (opposite side) retired fielded three in
      let p4 =
        caught_stealing-Unposted (is_caught_stealing o.cause) o.runner_id side fielded u four in
      Unposted-Balances t u side (omega arith)
