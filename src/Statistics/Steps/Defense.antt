-- ===== src/Statistics/Steps/Defense.antt =====
-- The credits of the defense leave the runs and hits alone.
use baseballstattrack.Common.{
  ℕ, ◌≡◌, inl, inr, List, [], ◌∷◌, Dict, ◌==◌, nat_eq, length, Result, ok, arith, Bool-cases,
  Option-cases, >>=-eq-ok, checked-eq-ok, ok-injective,
}
use baseballstattrack.Events.Enums.{GameSide}
use baseballstattrack.Events.Bodies.{RunnerMovement, FieldingCredit}
use baseballstattrack.Statistics.Tally.{Tallies, credit_fielder}
use baseballstattrack.Statistics.Tally.Posting.{
  Unposted, Unposted-refl, Unposted-trans, credit_fielder-Unposted,
}
use baseballstattrack.Statistics.Plays.{
  unique, last_of, but_last, require_players, credit_assists, credit_out_path,
}
use baseballstattrack.Statistics.Credits.{
  field_credit, credit_fielding, credit_out_paths, credit_defense, multiple_play,
  credit_multiple_play,
}

module _ (index : Dict ℕ GameSide) (asked : GameSide) where
  Unposted-same :
      (t u : Tallies) → ◌≡◌ {A = Result Tallies} (ok t) (ok u) → Unposted index asked t u
  Unposted-same t u e = rw (← ok-injective t u e) (Unposted-refl index asked t)

  credit_fielding-Unposted :
      (side : GameSide) (credits : List FieldingCredit) (t u : Tallies)
      → credit_fielding index side credits t ≡ ok u
      → Unposted index asked t u
  unfolding credit_fielding
  credit_fielding-Unposted side [] t u e = Unposted-same t u e
  credit_fielding-Unposted side (credit ∷ rest) t u e =
      let (v, one, more) =
        >>=-eq-ok (credit_fielder index credit.fielder_id side (field_credit credit) t) _ e in
      Unposted-trans index asked t v u
        (credit_fielder-Unposted index asked credit.fielder_id side (field_credit credit) t v one)
        (credit_fielding-Unposted side rest v u more)

  credit_assists-Unposted :
      (side : GameSide) (putout : ℕ) (fielders : List ℕ) (t u : Tallies)
      → credit_assists index side putout fielders t ≡ ok u
      → Unposted index asked t u
  unfolding credit_assists
  credit_assists-Unposted side putout [] t u e = Unposted-same t u e
  credit_assists-Unposted side putout (f ∷ rest) t u e = elim (Bool-cases (f == putout)) [
    | inl same ↦ credit_assists-Unposted side putout rest t u (rw same at e)
    | inr other ↦
        let (v, one, more) = >>=-eq-ok (credit_fielder index f side _ t) _ (rw other at e) in
        Unposted-trans index asked t v u (credit_fielder-Unposted index asked f side _ t v one)
          (credit_assists-Unposted side putout rest v u more)
  ]

  pub credit_out_path-Unposted :
      (fielders : List ℕ) (side : GameSide) (t u : Tallies)
      → credit_out_path index fielders side t ≡ ok u
      → Unposted index asked t u
  unfolding credit_out_path
  credit_out_path-Unposted [] side t u e = cc
  credit_out_path-Unposted (x ∷ xs) side t u e =
      let (_, k) = checked-eq-ok (require_players index side (unique (x ∷ xs))) _ e in
      let (v, one, more) = >>=-eq-ok (credit_fielder index (last_of x xs) side _ t) _ k in
      Unposted-trans index asked t v u
        (credit_fielder-Unposted index asked (last_of x xs) side _ t v one)
        (credit_assists-Unposted side (last_of x xs) (unique (but_last x xs)) v u more)

  credit_out_paths-Unposted :
      (side : GameSide) (ms : List RunnerMovement) (t u : Tallies)
      → credit_out_paths index side ms t ≡ ok u
      → Unposted index asked t u
  unfolding credit_out_paths
  credit_out_paths-Unposted side [] t u e = Unposted-same t u e
  credit_out_paths-Unposted side (m ∷ ms) t u e = elim (Option-cases m.out_details) [
    | inl missing ↦ absurd (ground arith)
    | inr (details, at) ↦
        let (v, one, more) =
          >>=-eq-ok (credit_out_path index details.fielders side t)
            (λ next. credit_out_paths index side ms next) (rw at at e) in
        Unposted-trans index asked t v u (credit_out_path-Unposted details.fielders side t v one)
          (credit_out_paths-Unposted side ms v u more)
  ]

  pub credit_defense-Unposted :
      (side : GameSide) (credits : List FieldingCredit) (outs : List RunnerMovement) (t u : Tallies)
      → credit_defense index side credits outs t ≡ ok u
      → Unposted index asked t u
  unfolding credit_defense
  credit_defense-Unposted side credits outs t u e = elim (Bool-cases (length credits == 0)) [
    | inl nobody ↦ credit_out_paths-Unposted side outs t u (ground arith)
    | inr named ↦ credit_fielding-Unposted side credits t u (ground arith)
  ]

  pub credit_multiple_play-Unposted :
      (side : GameSide) (outs : ℕ) (players : List ℕ) (t u : Tallies)
      → credit_multiple_play index side outs players t ≡ ok u
      → Unposted index asked t u
  unfolding credit_multiple_play
  credit_multiple_play-Unposted side outs [] t u e = Unposted-same t u e
  credit_multiple_play-Unposted side outs (p ∷ rest) t u e =
      let (v, one, more) = >>=-eq-ok (credit_fielder index p side (multiple_play outs) t) _ e in
      Unposted-trans index asked t v u
        (credit_fielder-Unposted index asked p side (multiple_play outs) t v one)
        (credit_multiple_play-Unposted side outs rest v u more)
