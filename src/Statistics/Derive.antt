-- ===== src/Statistics/Derive.antt =====
-- `deriveGameStatistics`, src/domain/statistics/game-statistics.ts: lines, teams and reconciliation.
pub mod Teams
use baseballstattrack.Common.{
  ℕ, ◌+◌, ◌*◌, Bool, true, false, not, ◌&&◌, ◌||◌, Option, none, some, List, [], ◌∷◌, map, length,
  if◌then◌else◌, filter, sort_by, get_or, ltb, ◌==◌, nat_eq, contains, option_beq, Dict, lookup,
  Result, ok, err, reject, or_raise, ◌>>=◌, ◌>>◌, thrown, underivable, type_error, Failure,
  EventErrorCode, StatisticErrorCode,
}
use baseballstattrack.Events.Enums.{GameSide, home, away, GameStatus, SchemaVersion}
use baseballstattrack.Events.Equality.{side_eq, side_code, status_eq}
use baseballstattrack.Events.State.{Sides, at_side, AcceptedEvent, AcceptedSetup, GameState}
use baseballstattrack.Engine.Replay.{Timeline, replay_game_timeline}
use baseballstattrack.Statistics.Rates.{is_safe}
use baseballstattrack.Statistics.Counters.{
  BattingCounters, PitchingCounters, FieldingCounters, Tally, batting_tally, pitching_tally,
  fielding_tally,
}
use baseballstattrack.Statistics.PlayerRates.{
  BattingRates, PitchingRates, FieldingRates, derive_batting_rates, derive_pitching_rates,
  derive_fielding_rates, expected_total_bases,
}
use baseballstattrack.Statistics.Tally.{
  InningKey, inning_key_eq, Tallies, nothing_tallied, opposite, player_side_index, inning_total,
}
use baseballstattrack.Statistics.Plays.{unique}
use baseballstattrack.Statistics.Steps.{tally_steps}

-- `PlayerBattingLine` and its two kin.
pub record PlayerLine (C R : Type 0) : Type 0 where
  pub player_id : ℕ
  pub side : GameSide
  pub counters : C
  pub rates : R

pub record TeamLine (C R : Type 0) : Type 0 where
  pub counters : C
  pub rates : R

module _ {C R : Type 0} (derive : C → Result R) where
  -- `requirePlayerSide` without an expected side, and the rates.
  abbrev pub player_line : Dict ℕ GameSide → ℕ × C → Result (PlayerLine C R)
  player_line index (player_id, counters) = elim (lookup player_id index) [
    | none ↦ err (underivable StatisticErrorCode.missing_attribution)
    | some side ↦ do
      rates ← derive counters
      ok (record { player_id = player_id; side = side; counters = counters; rates = rates })
  ]

  unfoldable pub player_lines : Dict ℕ GameSide → List (ℕ × C) → Result (List (PlayerLine C R))
  player_lines index [] = ok []
  player_lines index (entry ∷ rest) = do
    line ← player_line index entry
    lines ← player_lines index rest
    ok (line ∷ lines)

  -- The lines in the order of the players.
  abbrev pub sorted_lines : Dict ℕ GameSide → Dict ℕ C → Result (List (PlayerLine C R))
  sorted_lines index d = player_lines index (sort_by (λ (entry : ℕ × C). entry.0) d)

-- `sumCounters`
abbrev pub sum_onto : {C : Type 0} ⦃t : Tally C⦄ → C → List C → C
sum_onto total [] = total
sum_onto ⦃t⦄ total (c ∷ cs) = sum_onto (t.add total c) cs

module _ {C R : Type 0} ⦃t : Tally C⦄ where
  abbrev pub side_counters : GameSide → List (PlayerLine C R) → List C
  side_counters side lines =
      map (λ (line : PlayerLine C R). line.counters)
        (filter (λ (line : PlayerLine C R). line.side == side) lines)

  abbrev pub team_counters : GameSide → List (PlayerLine C R) → C
  team_counters side lines = sum_onto t.zero_counters (side_counters side lines)

  abbrev pub team_line : (C → Result R) → GameSide → List (PlayerLine C R) → Result (TeamLine C R)
  team_line derive side lines =
      let counters = team_counters side lines in
      do rates ← derive counters; ok (record { counters = counters; rates = rates })

pub record TeamStatistics : Type 0 where
  pub batting : TeamLine BattingCounters BattingRates
  pub pitching : TeamLine PitchingCounters PitchingRates
  pub fielding : TeamLine FieldingCounters FieldingRates

pub record Lines : Type 0 where
  pub batting_lines : List (PlayerLine BattingCounters BattingRates)
  pub pitching_lines : List (PlayerLine PitchingCounters PitchingRates)
  pub fielding_lines : List (PlayerLine FieldingCounters FieldingRates)

unfoldable pub all_lines : Dict ℕ GameSide → Tallies → Result Lines
all_lines index t = do
  batting ← sorted_lines derive_batting_rates index t.batting
  pitching ← sorted_lines derive_pitching_rates index t.pitching
  fielding ← sorted_lines derive_fielding_rates index t.fielding
  ok (record { batting_lines = batting; pitching_lines = pitching; fielding_lines = fielding })

-- `team(side)`
unfoldable pub team_statistics : GameSide → Lines → Result TeamStatistics
team_statistics side lines = do
  batting ← team_line derive_batting_rates side lines.batting_lines
  pitching ← team_line derive_pitching_rates side lines.pitching_lines
  fielding ← team_line derive_fielding_rates side lines.fielding_lines
  ok (record { batting = batting; pitching = pitching; fielding = fielding })

-- `assertEqual`
abbrev pub assert_equal : ℕ → ℕ → Result (Unit {0})
assert_equal actual expected =
    reject (not (actual == expected)) StatisticErrorCode.reconciliation_failure

-- The putouts of a side's fielding lines.
abbrev pub fielding_outs : GameSide → List (PlayerLine FieldingCounters FieldingRates) → ℕ
fielding_outs side [] = 0
fielding_outs side (line ∷ rest) =
    let total = fielding_outs side rest in
    if line.side == side then line.counters.putouts + total else total

-- The checks of one side against the other.
unfoldable pub reconcile_side :
    GameSide → Sides TeamStatistics → Lines → Dict InningKey ℕ → Sides ℕ → Result (Unit {0})
reconcile_side side teams lines inning_runs score =
    let batting = (at_side teams side).batting.counters in
    let pitching = (at_side teams (opposite side)).pitching.counters in
    do
      assert_equal batting.runs (at_side score side)
      assert_equal batting.total_bases (expected_total_bases batting)
      assert_equal (inning_total side inning_runs) (at_side score side)
      assert_equal pitching.outs_recorded (fielding_outs (opposite side) lines.fielding_lines)
      assert_equal pitching.hits_allowed batting.hits
      assert_equal pitching.runs_allowed batting.runs

pub data GameOutcome : Type 0 where
  home_win away_win tie undecided : GameOutcome

-- `scoringOutcome`
unfoldable pub scoring_outcome : GameStatus → Sides ℕ → GameOutcome
scoring_outcome status score =
    if not
      (contains (GameStatus.completed ∷ GameStatus.verified ∷ GameStatus.corrected ∷ []) status)
    then GameOutcome.undecided
    else if score.home_side == score.away_side
    then GameOutcome.tie
    else if ltb score.away_side score.home_side
    then GameOutcome.home_win
    else GameOutcome.away_win

pub record InningLine : Type 0 where
  pub inning : ℕ
  pub side : GameSide
  pub runs : ℕ

abbrev pub inning_line : InningKey × ℕ → InningLine
inning_line (key, runs) = record { inning = key.inning; side = key.side; runs = runs }

-- By inning, the visitors first: the keys are distinct, so one number orders them.
abbrev pub inning_order : InningLine → ℕ
inning_order line = line.inning * 2 + (if line.side == away then 0 else 1)

abbrev pub inning_lines : Dict InningKey ℕ → List InningLine
inning_lines runs = sort_by inning_order (map inning_line runs)

abbrev pub version_number : SchemaVersion → ℕ
version_number SchemaVersion.v1 = 1
version_number SchemaVersion.v2 = 2
version_number SchemaVersion.v3 = 3

abbrev pub event_schema_versions : List AcceptedEvent → List ℕ
event_schema_versions events =
    sort_by (λ n. n) (unique (map (λ (e : AcceptedEvent). version_number e.schema_version) events))

-- `is_verified` is `verificationStatus`, and at once `seasonEligibility`.
pub record StatisticsMetadata : Type 0 where
  pub account_id : ℕ
  pub game_id : ℕ
  pub setup_snapshot_id : ℕ
  pub setup_revision : ℕ
  pub source_revision : ℕ
  pub privacy_overlay_revision : ℕ
  pub ruleset_version_id : ℕ
  pub event_schema_versions : List ℕ
  pub derivation_version : ℕ
  pub statistic_rules_version : ℕ
  pub lifecycle_status : GameStatus
  pub is_verified : Bool

pub record GameStatisticsProjection : Type 0 where
  pub metadata : StatisticsMetadata
  pub outcome : GameOutcome
  pub final_score : Sides ℕ
  pub inning_lines : List InningLine
  pub teams : Sides TeamStatistics
  pub lines : Lines
