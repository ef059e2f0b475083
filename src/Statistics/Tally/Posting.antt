-- ===== src/Statistics/Tally/Posting.antt =====
-- What each credit of the loop adds to the totals of the sides.
use baseballstattrack.Common.{
  ℕ, ◌+◌, ◌≡◌, refl, some, get_or, nat_eq, Dict, lookup, insert, ok, arith, Option-cases, inl, inr,
  eq_of_beq, checked-eq-ok, ok-injective,
}
use baseballstattrack.Events.Enums.{GameSide, home, away}
use baseballstattrack.Events.Equality.{side_eq}
use baseballstattrack.Engine.Replay.{EffectiveReplayStep}
use baseballstattrack.Statistics.Counters.{
  BattingCounters, PitchingCounters, FieldingCounters, batting_tally, pitching_tally,
  fielding_tally,
}
use baseballstattrack.Statistics.Tally.{
  InningKey, inning_key_eq, Tallies, opposite, touch_inning, credit_batter, credit_pitcher,
  credit_fielder, record_inning, record_inning_run, require_player_side,
}
use baseballstattrack.Statistics.Tally.Totals.{
  share, share-zero, side_total-change, inning_total-insert, inning_total-touch, Posted,
}

some_side :
    (index : Dict ℕ GameSide) (player_id : ℕ) (side : GameSide)
    → require_player_side index player_id side ≡ ok tt
    → lookup player_id index ≡ some side
some_side index player_id side h = ground (arith, λ (s : GameSide). eq_of_beq s side)

share-opposite :
    (asked side : GameSide) (n : ℕ) → share (opposite asked) (opposite side) n ≡ share asked side n
unfolding share
share-opposite home home n = refl
share-opposite home away n = refl
share-opposite away home n = refl
share-opposite away away n = refl

opposite_twice : (side : GameSide) → opposite (opposite side) ≡ side
opposite_twice home = refl
opposite_twice away = refl

module _ (index : Dict ℕ GameSide) (asked : GameSide) where
  pub credit_batter-Posted :
      (player_id : ℕ) (side : GameSide) (f : BattingCounters → BattingCounters) (r h : ℕ)
      (t u : Tallies)
      → ((c : BattingCounters) → (f c).runs ≡ c.runs + r)
      → ((c : BattingCounters) → (f c).hits ≡ c.hits + h)
      → credit_batter index player_id side f t ≡ ok u
      → Posted index asked t u (share asked side r) (share asked side h) 0 0 0
  unfolding credit_batter
  credit_batter-Posted player_id side f r h t u runs hits e =
      let (known, done) = checked-eq-ok (require_player_side index player_id side) _ e in
      let at = some_side index player_id side known in
      rw (← ok-injective _ u done) (record {
        batted =
            side_total-change index asked (λ (c : BattingCounters). c.runs) refl player_id side f r
              t.batting at runs;
        hit =
            side_total-change index asked (λ (c : BattingCounters). c.hits) refl player_id side f h
              t.batting at hits;
        given = omega arith;
        given_hits = omega arith;
        inned = omega arith;
      })

  pub credit_pitcher-Posted :
      (player_id : ℕ) (side : GameSide) (f : PitchingCounters → PitchingCounters) (r h : ℕ)
      (t u : Tallies)
      → ((c : PitchingCounters) → (f c).runs_allowed ≡ c.runs_allowed + r)
      → ((c : PitchingCounters) → (f c).hits_allowed ≡ c.hits_allowed + h)
      → credit_pitcher index player_id (opposite side) f t ≡ ok u
      → Posted index asked t u 0 0 (share asked side r) (share asked side h) 0
  unfolding credit_pitcher
  credit_pitcher-Posted player_id side f r h t u runs hits e =
      let (known, done) = checked-eq-ok (require_player_side index player_id (opposite side)) _ e in
      let at = some_side index player_id (opposite side) known in
      rw (← ok-injective _ u done) (record {
        batted = omega arith;
        hit = omega arith;
        given = rw (← share-opposite asked side r) (
            side_total-change index (opposite asked) (λ (c : PitchingCounters). c.runs_allowed) refl
              player_id (opposite side) f r t.pitching at runs);
        given_hits = rw (← share-opposite asked side h) (
            side_total-change index (opposite asked) (λ (c : PitchingCounters). c.hits_allowed) refl
              player_id (opposite side) f h t.pitching at hits);
        inned = omega arith;
      })

  -- A credit that leaves runs and hits alone.
  abbrev pub Unposted : Tallies → Tallies → Type 0
  Unposted t u = Posted index asked t u 0 0 0 0 0

  pub Unposted-refl : (t : Tallies) → Unposted t t
  Unposted-refl t = omega arith

  pub Posted-trans :
      (t u v : Tallies) (a b c d e a' b' c' d' e' : ℕ)
      → Posted index asked t u a b c d e
      → Posted index asked u v a' b' c' d' e'
      → Posted index asked t v (a + a') (b + b') (c + c') (d + d') (e + e')
  Posted-trans t u v a b c d e a' b' c' d' e' p q = omega arith

  pub Unposted-trans : (t u v : Tallies) → Unposted t u → Unposted u v → Unposted t v
  Unposted-trans t u v p q = omega arith

  pub Unposted-Posted :
      (t u v : Tallies) (a b c d e : ℕ)
      → Unposted t u
      → Posted index asked u v a b c d e
      → Posted index asked t v a b c d e
  Unposted-Posted t u v a b c d e p q = omega arith

  pub Posted-Unposted :
      (t u v : Tallies) (a b c d e : ℕ)
      → Posted index asked t u a b c d e
      → Unposted u v
      → Posted index asked t v a b c d e
  Posted-Unposted t u v a b c d e p q = omega arith

  pub credit_batter-Unposted :
      (player_id : ℕ) (side : GameSide) (f : BattingCounters → BattingCounters) (t u : Tallies)
      → ((c : BattingCounters) → (f c).runs ≡ c.runs)
      → ((c : BattingCounters) → (f c).hits ≡ c.hits)
      → credit_batter index player_id side f t ≡ ok u
      → Unposted t u
  credit_batter-Unposted player_id side f t u runs hits e =
      let p =
        credit_batter-Posted player_id side f 0 0 t u (λ c. omega (arith, runs c))
          (λ c. omega (arith, hits c)) e in
      rw share-zero at p

  pub credit_pitcher-Unposted :
      (player_id : ℕ) (side : GameSide) (f : PitchingCounters → PitchingCounters) (t u : Tallies)
      → ((c : PitchingCounters) → (f c).runs_allowed ≡ c.runs_allowed)
      → ((c : PitchingCounters) → (f c).hits_allowed ≡ c.hits_allowed)
      → credit_pitcher index player_id side f t ≡ ok u
      → Unposted t u
  credit_pitcher-Unposted player_id side f t u runs hits e =
      let p =
        credit_pitcher-Posted player_id (opposite side) f 0 0 t u (λ c. omega (arith, runs c))
          (λ c. omega (arith, hits c)) (rw (opposite_twice side) e) in
      rw share-zero at p

  pub credit_fielder-Unposted :
      (player_id : ℕ) (side : GameSide) (f : FieldingCounters → FieldingCounters) (t u : Tallies)
      → credit_fielder index player_id side f t ≡ ok u
      → Unposted t u
  unfolding credit_fielder
  credit_fielder-Unposted player_id side f t u e =
      let (known, done) = checked-eq-ok (require_player_side index player_id side) _ e in
      rw (← ok-injective _ u done) (omega arith)

  pub record_inning-Unposted :
      (step : EffectiveReplayStep) (side : GameSide) (t u : Tallies)
      → record_inning step side t ≡ ok u
      → Unposted t u
  unfolding record_inning
  record_inning-Unposted step side t u e = elim (Option-cases step.before.inning) [
    | inl no_inning ↦ absurd (ground arith)
    | inr (i, at) ↦
        let key : InningKey = record { inning = i; side = side } in
        let done : u ≡ record t { inning_runs = touch_inning key t.inning_runs } = ground arith in
        rw done (record {
          batted = omega arith;
          hit = omega arith;
          given = omega arith;
          given_hits = omega arith;
          inned = omega (arith, inning_total-touch asked key t.inning_runs);
        })
  ]

  pub record_inning_run-Posted :
      (step : EffectiveReplayStep) (side : GameSide) (t u : Tallies)
      → record_inning_run step side t ≡ ok u
      → Posted index asked t u 0 0 0 0 (share asked side 1)
  unfolding record_inning_run
  record_inning_run-Posted step side t u e = elim (Option-cases step.before.inning) [
    | inl no_inning ↦ absurd (ground arith)
    | inr (i, at) ↦
        let key : InningKey = record { inning = i; side = side } in
        let runs = touch_inning key t.inning_runs in
        let done : u ≡ record t { inning_runs = insert key (get_or (lookup key runs) 0 + 1) runs } =
          ground arith in
        rw done (record {
          batted = omega arith;
          hit = omega arith;
          given = omega arith;
          given_hits = omega arith;
          inned = omega (
            arith,
            inning_total-insert asked key 1 runs,
            inning_total-touch asked key t.inning_runs,
          );
        })
  ]
