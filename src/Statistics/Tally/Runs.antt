-- ===== src/Statistics/Tally/Runs.antt =====
-- A run that counts is one run to each account: batter, pitcher and inning.
use baseballstattrack.Common.{
  ℕ, ◌+◌, ◌≡◌, refl, inl, inr, Option, Dict, if◌then◌else◌, ◌==◌, nat_eq, ok, arith, Bool-cases,
  Option-cases, >>=-eq-ok,
}
use baseballstattrack.Events.Enums.{GameSide}
use baseballstattrack.Events.State.{at_side}
use baseballstattrack.Events.Schema.{is_true}
use baseballstattrack.Events.Bodies.{RunnerMovement}
use baseballstattrack.Engine.Replay.{EffectiveReplayStep}
use baseballstattrack.Statistics.Tally.{
  Tallies, opposite, credit_batter, credit_pitcher, assert_earned_run, runs_batted_in_credit,
  inherited_run_credit, credit_run, apply_counting_run, is_counting_run,
}
use baseballstattrack.Statistics.Tally.Totals.{share, share-zero, Posted}
use baseballstattrack.Statistics.Tally.Posting.{
  Unposted, Unposted-refl, credit_batter-Posted, credit_pitcher-Posted, credit_batter-Unposted,
  credit_pitcher-Unposted, record_inning_run-Posted,
}

-- The runs that a movement is worth.
abbrev pub counted : RunnerMovement → ℕ
counted m = if is_counting_run m then 1 else 0

module _ (index : Dict ℕ GameSide) (asked : GameSide) where
  runs_batted_in_credit-Unposted :
      (m : RunnerMovement) (side : GameSide) (batter : Option ℕ) (t u : Tallies)
      → runs_batted_in_credit index m side batter t ≡ ok u
      → Unposted index asked t u
  runs_batted_in_credit-Unposted m side batter t u e = elim (Bool-cases (is_true m.rbi_eligible)) [
    | inl eligible ↦ elim (Option-cases batter) [
      | inl nobody ↦ absurd (ground arith)
      | inr (b, at) ↦
          credit_batter-Unposted index asked b side
            (λ c. record c { runs_batted_in = c.runs_batted_in + 1 }) t u (λ c. refl) (λ c. refl)
            (ground arith)
    ]
    | inr none_due ↦ let same : t ≡ u = ground arith in rw (← same) (Unposted-refl index asked t)
  ]

  inherited_run_credit-Unposted :
      (step : EffectiveReplayStep) (m : RunnerMovement) (side : GameSide) (t u : Tallies)
      → inherited_run_credit index step m side t ≡ ok u
      → Unposted index asked t u
  inherited_run_credit-Unposted step m side t u e =
      elim (Bool-cases (at_side step.before.active_pitcher side == m.responsible_pitcher_id)) [
        | inl own ↦ let same : t ≡ u = ground arith in rw (← same) (Unposted-refl index asked t)
        | inr other ↦
            credit_pitcher-Unposted index asked (at_side step.before.active_pitcher side) side
              (λ c. record c { inherited_runners_scored = c.inherited_runners_scored + 1 }) t u
              (λ c. refl) (λ c. refl) (ground arith)
      ]

  credit_run-Posted :
      (step : EffectiveReplayStep) (m : RunnerMovement) (side : GameSide) (batter : Option ℕ)
      (t u : Tallies)
      → credit_run index step m side batter t ≡ ok u
      → Posted index asked t u (share asked side 1) 0 (share asked side 1) 0 (share asked side 1)
  unfolding credit_run
  credit_run-Posted step m side batter t u e =
      let (earned, _, k) = >>=-eq-ok (assert_earned_run m.earned_run step.schema_version) _ e in
      let (scored, one, k') = >>=-eq-ok (credit_batter index m.runner_id side _ t) _ k in
      let (allowed, two, k'') =
        >>=-eq-ok (credit_pitcher index m.responsible_pitcher_id (opposite side) _ scored) _ k' in
      let (inherited, three, k''') =
        >>=-eq-ok (inherited_run_credit index step m (opposite side) allowed) _ k'' in
      let (batted_in, four, five) =
        >>=-eq-ok (runs_batted_in_credit index m side batter inherited) _ k''' in
      let p =
        credit_batter-Posted index asked m.runner_id side _ 1 0 t scored (λ c. refl)
          (λ c. omega arith) one in
      let q =
        credit_pitcher-Posted index asked m.responsible_pitcher_id side _ 1 0 scored allowed
          (λ c. refl) (λ c. omega arith) two in
      let r = inherited_run_credit-Unposted step m (opposite side) allowed inherited three in
      let s = runs_batted_in_credit-Unposted m side batter inherited batted_in four in
      let v = record_inning_run-Posted index asked step side batted_in u five in
      let none_hit = share-zero asked side in omega arith

  pub apply_counting_run-Posted :
      (step : EffectiveReplayStep) (m : RunnerMovement) (side : GameSide) (batter : Option ℕ)
      (t u : Tallies)
      → apply_counting_run index step m side batter t ≡ ok u
      → Posted index asked t u
          (share asked side (counted m))
          0
          (share asked side (counted m))
          0
          (share asked side (counted m))
  unfolding apply_counting_run
  apply_counting_run-Posted step m side batter t u e = elim (Bool-cases (is_counting_run m)) [
    | inl counts ↦
        let one : counted m ≡ 1 = ground arith in
        rw one (credit_run-Posted step m side batter t u (ground arith))
    | inr idle ↦
        let nothing : counted m ≡ 0 = ground arith in
        let same : t ≡ u = ground arith in
        rw (nothing, share-zero, ← same) (Unposted-refl index asked t)
  ]
