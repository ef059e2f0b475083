-- ===== src/Statistics/Tally.antt =====
-- The loop over the replay of `deriveGameStatistics`, src/domain/statistics/game-statistics.ts. A
-- counter object that `battingFor` returned and that is written later is the entry of its player.
pub mod Totals
pub mod Posting
pub mod Runs
use baseballstattrack.Common.{
  ℕ, ◌+◌, Bool, true, false, not, ◌&&◌, Option, none, some, List, [], ◌∷◌, ◌++◌, length,
  if◌then◌else◌, is_some, filter, get_or, Eq, ◌==◌, nat_eq, contains, option_beq, Dict, lookup,
  insert, Result, ok, err, reject, ◌>>=◌, ◌>>◌, type_error, underivable, StatisticErrorCode,
  nat_beq, nat_beq_iff, ◌↔◌, ◌≡◌, arith,
}
use baseballstattrack.Events.Enums.{
  GameSide, home, away, Half, top, bottom, Outcome, EarnedRun, SchemaVersion, FieldingCreditKind,
  RunnerOutCause, StealTarget, StealResult, PlayType, RunnerDestination, RunnerOrigin,
  MovementCause,
}
use baseballstattrack.Events.Equality.{side_eq, side_code, outcome_eq, credit_eq, play_type_eq}
use baseballstattrack.Events.State.{at_side, AcceptedSetup, LineupEntry, GameState}
use baseballstattrack.Events.Bodies.{
  RunnerMovement, FieldingCredit, PlateAppearance, RunnerOut, StolenBaseAttempt, RunnerPlay,
  PitchingChange, PlayBody, EventBody, play, game_started, plate_appearance_recorded,
  runner_advance_recorded, runner_out_recorded, stolen_base_attempt_recorded, runner_play_recorded,
  pitching_change_made,
}
use baseballstattrack.Events.Schema.{is_home, is_out, is_true, is_error_credit}
use baseballstattrack.Engine.Replay.{EffectiveReplayStep}
use baseballstattrack.Statistics.Counters.{
  BattingCounters, PitchingCounters, FieldingCounters, Tally, batting_tally, pitching_tally,
  fielding_tally,
}

-- The key `${inning}:${side}`.
pub record InningKey : Type 0 where
  pub inning : ℕ
  pub side : GameSide

abbrev pub inning_key_beq : InningKey → InningKey → Bool
inning_key_beq a b = a.inning == b.inning && a.side == b.side

pub inning_key_beq_iff : (a b : InningKey) → (inning_key_beq a b ≡ true) ↔ (a ≡ b)
inning_key_beq_iff a b =
    ground (arith, nat_beq_iff a.inning b.inning, side_eq.beq_iff a.side b.side)

instance abbrev pub inning_key_eq : Eq InningKey
inning_key_eq = record { beq = inning_key_beq; beq_iff = inning_key_beq_iff }

pub record Tallies : Type 0 where
  pub batting : Dict ℕ BattingCounters
  pub pitching : Dict ℕ PitchingCounters
  pub fielding : Dict ℕ FieldingCounters
  pub inning_runs : Dict InningKey ℕ

abbrev pub nothing_tallied : Tallies
nothing_tallied = record { batting = []; pitching = []; fielding = []; inning_runs = [] }

-- The runs of a side's innings.
abbrev pub inning_total : GameSide → Dict InningKey ℕ → ℕ
inning_total side [] = 0
inning_total side ((key, runs) ∷ rest) =
    let total = inning_total side rest in if key.side == side then runs + total else total

abbrev pub opposite : GameSide → GameSide
opposite home = away
opposite away = home

-- `battingSide(step)`
unfoldable pub step_batting_side : EffectiveReplayStep → Result GameSide
step_batting_side step = elim step.before.half [
  | none ↦ err (underivable StatisticErrorCode.incomplete_replay_state)
  | some half ↦ elim half [ top ↦ ok away | bottom ↦ ok home ]
]

unfoldable pub index_lineup :
    GameSide → List LineupEntry → Dict ℕ GameSide → Result (Dict ℕ GameSide)
index_lineup side [] index = ok index
index_lineup side (entry ∷ lineup) index =
    reject (is_some (lookup entry.player_id index)) StatisticErrorCode.missing_attribution
    >> index_lineup side lineup (insert entry.player_id side index)

unfoldable pub player_side_index : AcceptedSetup → Result (Dict ℕ GameSide)
unfolding index_lineup
player_side_index setup = do
  index ← index_lineup away setup.sides.away_side.lineup []
  index_lineup home setup.sides.home_side.lineup index

-- `requirePlayerSide` with an expected side.
abbrev pub require_player_side : Dict ℕ GameSide → ℕ → GameSide → Result (Unit {0})
require_player_side index player_id side =
    reject (not (option_beq (lookup player_id index) (some side)))
      StatisticErrorCode.missing_attribution

-- The counters of a player, created if need be, and changed.
abbrev pub change : {C : Type 0} ⦃t : Tally C⦄ → ℕ → (C → C) → Dict ℕ C → Dict ℕ C
change ⦃t⦄ player_id f d = insert player_id (f (get_or (lookup player_id d) t.zero_counters)) d

-- `battingFor(playerId, side)`, with a write through what it returns; likewise the next two.
unfoldable pub credit_batter :
    Dict ℕ GameSide → ℕ → GameSide → (BattingCounters → BattingCounters) → Tallies → Result Tallies
credit_batter index player_id side f t =
    require_player_side index player_id side
    >> ok (record t { batting = change player_id f t.batting })

unfoldable pub credit_pitcher :
    Dict ℕ GameSide
    → ℕ
    → GameSide
    → (PitchingCounters → PitchingCounters)
    → Tallies
    → Result Tallies
credit_pitcher index player_id side f t =
    require_player_side index player_id side
    >> ok (record t { pitching = change player_id f t.pitching })

unfoldable pub credit_fielder :
    Dict ℕ GameSide
    → ℕ
    → GameSide
    → (FieldingCounters → FieldingCounters)
    → Tallies
    → Result Tallies
credit_fielder index player_id side f t =
    require_player_side index player_id side
    >> ok (record t { fielding = change player_id f t.fielding })

-- `recordInning`
abbrev pub touch_inning : InningKey → Dict InningKey ℕ → Dict InningKey ℕ
touch_inning key runs = if is_some (lookup key runs) then runs else insert key 0 runs

unfoldable pub record_inning : EffectiveReplayStep → GameSide → Tallies → Result Tallies
record_inning step side t = elim step.before.inning [
  | none ↦ err (underivable StatisticErrorCode.incomplete_replay_state)
  | some inning ↦ ok (record t {
    inning_runs = touch_inning (record { inning = inning; side = side }) t.inning_runs;
  })
]

-- `recordInning`, then `increment`.
unfoldable pub record_inning_run : EffectiveReplayStep → GameSide → Tallies → Result Tallies
record_inning_run step side t = elim step.before.inning [
  | none ↦ err (underivable StatisticErrorCode.incomplete_replay_state)
  | some inning ↦
      let key : InningKey = record { inning = inning; side = side } in
      let runs = touch_inning key t.inning_runs in
      ok (record t { inning_runs = insert key (get_or (lookup key runs) 0 + 1) runs })
]

-- `assertEarnedRun`: whether the run is earned.
unfoldable pub assert_earned_run : Option EarnedRun → SchemaVersion → Result Bool
assert_earned_run none SchemaVersion.v1 =
    err (underivable StatisticErrorCode.unsupported_event_version)
assert_earned_run none _ = err (underivable StatisticErrorCode.missing_attribution)
assert_earned_run (some EarnedRun.pending) _ =
    err (underivable StatisticErrorCode.incomplete_replay_state)
assert_earned_run (some EarnedRun.earned) _ = ok true
assert_earned_run (some EarnedRun.unearned) _ = ok false

-- One more if the test holds.
abbrev pub plus_if : Bool → ℕ → ℕ
plus_if b n = if b then n + 1 else n

abbrev pub is_counting_run : RunnerMovement → Bool
is_counting_run m = is_home m.to && is_true m.run_counts

abbrev pub runs_batted_in_credit :
    Dict ℕ GameSide → RunnerMovement → GameSide → Option ℕ → Tallies → Result Tallies
runs_batted_in_credit index m side batter t =
    if is_true m.rbi_eligible
    then elim batter [
      | none ↦ err (underivable StatisticErrorCode.missing_attribution)
      | some batter_id ↦
          credit_batter index batter_id side
            (λ c. record c { runs_batted_in = c.runs_batted_in + 1 }) t
    ]
    else ok t

abbrev pub inherited_run_credit :
    Dict ℕ GameSide → EffectiveReplayStep → RunnerMovement → GameSide → Tallies → Result Tallies
inherited_run_credit index step m pitcher_side t =
    let active_pitcher = at_side step.before.active_pitcher pitcher_side in
    if active_pitcher == m.responsible_pitcher_id
    then ok t
    else credit_pitcher index active_pitcher pitcher_side
        (λ c. record c { inherited_runners_scored = c.inherited_runners_scored + 1 }) t

-- The credits of a run that counts.
unfoldable pub credit_run :
    Dict ℕ GameSide
    → EffectiveReplayStep
    → RunnerMovement
    → GameSide
    → Option ℕ
    → Tallies
    → Result Tallies
credit_run index step m side batter t = do
  earned ← assert_earned_run m.earned_run step.schema_version
  scored ← credit_batter index m.runner_id side (λ c. record c { runs = c.runs + 1 }) t
  allowed ←
      credit_pitcher index m.responsible_pitcher_id (opposite side)
        (λ c. record c {
          runs_allowed = c.runs_allowed + 1;
          earned_runs = plus_if earned c.earned_runs;
        })
        scored
  inherited ← inherited_run_credit index step m (opposite side) allowed
  batted_in ← runs_batted_in_credit index m side batter inherited
  record_inning_run step side batted_in

unfoldable pub apply_counting_run :
    Dict ℕ GameSide
    → EffectiveReplayStep
    → RunnerMovement
    → GameSide
    → Option ℕ
    → Tallies
    → Result Tallies
unfolding credit_run
apply_counting_run index step m side batter t =
    if is_counting_run m then credit_run index step m side batter t else ok t
