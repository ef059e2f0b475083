-- ===== src/Statistics/Tally/Totals.antt =====
-- The totals of a side, and what each credit adds to them.
use baseballstattrack.Common.{
  ℕ, ◌+◌, ◌≡◌, inl, inr, false, some, [], ◌∷◌, if◌then◌else◌, is_some, get_or, ◌==◌, nat_eq,
  option_beq, Dict, lookup, insert, arith, Bool-cases, eq_of_beq,
}
use baseballstattrack.Events.Enums.{GameSide}
use baseballstattrack.Events.Equality.{side_eq}
use baseballstattrack.Statistics.Counters.{
  BattingCounters, PitchingCounters, Tally, batting_tally, pitching_tally, fielding_tally,
}
use baseballstattrack.Statistics.Tally.{
  InningKey, inning_key_eq, Tallies, opposite, inning_total, change, touch_inning,
}

-- What a side has, if it is the side asked for.
unfoldable pub share : GameSide → GameSide → ℕ → ℕ
share asked side n = if side == asked then n else 0

pub share-add :
    (asked side : GameSide) (m n : ℕ)
    → share asked side (m + n) ≡ share asked side m + share asked side n
unfolding share
share-add asked side m n = ground arith

pub share-zero : (asked side : GameSide) → share asked side 0 ≡ 0
unfolding share
share-zero asked side = ground arith

module _ {C : Type 0} (index : Dict ℕ GameSide) (asked : GameSide) (f : C → ℕ) where
  -- The sum of `f` over the players of a side.
  abbrev pub side_total : Dict ℕ C → ℕ
  side_total [] = 0
  side_total ((player_id, c) ∷ rest) =
      let total = side_total rest in
      if option_beq (lookup player_id index) (some asked) then f c + total else total

module _ {C : Type 0} ⦃t : Tally C⦄ (index : Dict ℕ GameSide) (asked : GameSide) (f : C → ℕ)
    (starts : f t.zero_counters ≡ 0) where
  pub side_total-change :
      (player_id : ℕ) (side : GameSide) (g : C → C) (n : ℕ) (d : Dict ℕ C)
      → lookup player_id index ≡ some side
      → ((c : C) → f (g c) ≡ f c + n)
      → side_total index asked f (change player_id g d)
        ≡ side_total index asked f d + share asked side n
  unfolding share
  side_total-change player_id side g n [] h adds = ground (arith, starts, adds t.zero_counters)
  side_total-change player_id side g n ((j, c) ∷ d) h adds = elim (Bool-cases (j == player_id)) [
    | inl same ↦ let e = eq_of_beq j player_id same in ground (arith, adds c)
    | inr other ↦ ground (arith, side_total-change player_id side g n d h adds)
  ]

pub inning_total-insert :
    (asked : GameSide) (key : InningKey) (n : ℕ) (d : Dict InningKey ℕ)
    → inning_total asked (insert key (get_or (lookup key d) 0 + n) d)
      ≡ inning_total asked d + share asked key.side n
unfolding share
inning_total-insert asked key n [] = ground arith
inning_total-insert asked key n ((j, m) ∷ d) = elim (Bool-cases (j == key)) [
  | inl same ↦ let e = eq_of_beq j key same in ground arith
  | inr other ↦ ground (arith, inning_total-insert asked key n d)
]

inning_total-insert_new :
    (asked : GameSide) (key : InningKey) (d : Dict InningKey ℕ)
    → is_some (lookup key d) ≡ false
    → inning_total asked (insert key 0 d) ≡ inning_total asked d
inning_total-insert_new asked key [] h = ground arith
inning_total-insert_new asked key ((j, m) ∷ d) h = elim (Bool-cases (j == key)) [
  | inl same ↦ ground arith
  | inr other ↦ ground (arith, inning_total-insert_new asked key d)
]

pub inning_total-touch :
    (asked : GameSide) (key : InningKey) (d : Dict InningKey ℕ)
    → inning_total asked (touch_inning key d) ≡ inning_total asked d
inning_total-touch asked key d = ground (arith, inning_total-insert_new asked key d)

-- What an operation adds to the totals of the side asked for: runs and hits of its batters, runs and
-- hits that the other side's pitchers allow, and runs of its innings.
module _ (index : Dict ℕ GameSide) (asked : GameSide) where
  abbrev pub runs_of : Tallies → ℕ
  runs_of t = side_total index asked (λ (c : BattingCounters). c.runs) t.batting

  abbrev pub hits_of : Tallies → ℕ
  hits_of t = side_total index asked (λ (c : BattingCounters). c.hits) t.batting

  abbrev pub runs_allowed_to : Tallies → ℕ
  runs_allowed_to t =
      side_total index (opposite asked) (λ (c : PitchingCounters). c.runs_allowed) t.pitching

  abbrev pub hits_allowed_to : Tallies → ℕ
  hits_allowed_to t =
      side_total index (opposite asked) (λ (c : PitchingCounters). c.hits_allowed) t.pitching

  abbrev pub inning_runs_of : Tallies → ℕ
  inning_runs_of t = inning_total asked t.inning_runs

  pub record Posted (t u : Tallies) (runs hits allowed hits_allowed innings : ℕ) : Type 0 where
    pub batted : runs_of u ≡ runs_of t + runs
    pub hit : hits_of u ≡ hits_of t + hits
    pub given : runs_allowed_to u ≡ runs_allowed_to t + allowed
    pub given_hits : hits_allowed_to u ≡ hits_allowed_to t + hits_allowed
    pub inned : inning_runs_of u ≡ inning_runs_of t + innings
