-- ===== src/Statistics/Season.antt =====
-- `deriveSeasonStatistics`, src/domain/statistics/season-statistics.ts.
pub mod Totals
pub mod Team
pub mod Reordering
use baseballstattrack.Common.{
  ℕ, ◌+◌, Bool, true, false, not, ◌&&◌, ◌||◌, Option, none, some, List, [], ◌∷◌, ◌++◌, map,
  if◌then◌else◌, filter, sort_by, get_or, ◌==◌, nat_eq, contains, Dict, Result, ok, err, reject,
  ◌>>=◌, ◌>>◌, StatisticErrorCode,
}
use baseballstattrack.Events.Enums.{GameSide}
use baseballstattrack.Events.Equality.{side_eq}
use baseballstattrack.Statistics.Counters.{
  BattingCounters, PitchingCounters, FieldingCounters, Tally, batting_tally, pitching_tally,
  fielding_tally,
}
use baseballstattrack.Statistics.PlayerRates.{
  BattingRates, PitchingRates, FieldingRates, derive_batting_rates, derive_pitching_rates,
  derive_fielding_rates,
}
use baseballstattrack.Statistics.Tally.{change}
use baseballstattrack.Statistics.Plays.{unique}
use baseballstattrack.Statistics.Derive.{
  PlayerLine, TeamLine, TeamStatistics, Lines, GameStatisticsProjection, sum_onto,
}

pub record SeasonGameSelection : Type 0 where
  pub game : GameStatisticsProjection
  pub side : GameSide
  pub season_id : ℕ
  pub team_id : ℕ

pub record SeasonStatisticsInput : Type 0 where
  pub account_id : ℕ
  pub season_id : ℕ
  pub team_id : ℕ
  pub games : List SeasonGameSelection
  pub include_unverified : Bool

-- A line without its side.
pub record SeasonLine (C R : Type 0) : Type 0 where
  pub player_id : ℕ
  pub counters : C
  pub rates : R

module _ {C R : Type 0} ⦃t : Tally C⦄ where
  -- `add(counters, line.counters, keys)` of each line, in the entry of its player.
  unfoldable pub add_lines : List (PlayerLine C R) → Dict ℕ C → Dict ℕ C
  add_lines [] totals = totals
  add_lines (line ∷ rest) totals =
      add_lines rest (change line.player_id (λ c. t.add c line.counters) totals)

module _ {C R : Type 0} (derive : C → Result R) where
  -- `finish` of each entry.
  unfoldable pub finish_lines : List (ℕ × C) → Result (List (SeasonLine C R))
  finish_lines [] = ok []
  finish_lines ((player_id, counters) ∷ rest) = do
    rates ← derive counters
    lines ← finish_lines rest
    ok (record { player_id = player_id; counters = counters; rates = rates } ∷ lines)

  unfoldable pub aggregate_players :
      ⦃t : Tally C⦄ → List (PlayerLine C R) → Result (List (SeasonLine C R))
  unfolding add_lines finish_lines
  aggregate_players lines = finish_lines (sort_by (λ (entry : ℕ × C). entry.0) (add_lines lines []))

  abbrev pub season_team : ⦃t : Tally C⦄ → List (SeasonLine C R) → Result (TeamLine C R)
  season_team ⦃t⦄ lines =
      let counters = sum_onto t.zero_counters (map (λ (l : SeasonLine C R). l.counters) lines) in
      do rates ← derive counters; ok (record { counters = counters; rates = rates })

-- The checks of a game; `seen` holds the identifiers of the games before it.
unfoldable pub check_game : SeasonStatisticsInput → List ℕ → SeasonGameSelection → Result (Unit {0})
check_game input seen selection =
    let metadata = selection.game.metadata in
    do
      reject (not (metadata.account_id == input.account_id)) StatisticErrorCode.account_mismatch
      reject (not (metadata.derivation_version == 2) || not (metadata.statistic_rules_version == 1))
          StatisticErrorCode.unsupported_ruleset
      reject
          (not (selection.season_id == input.season_id) || not (selection.team_id == input.team_id))
          StatisticErrorCode.missing_attribution
      reject (contains seen metadata.game_id) StatisticErrorCode.reconciliation_failure

unfoldable pub check_games :
    SeasonStatisticsInput → List ℕ → List SeasonGameSelection → Result (Unit {0})
unfolding check_game
check_games input seen [] = ok tt
check_games input seen (selection ∷ rest) =
    check_game input seen selection
    >> check_games input (selection.game.metadata.game_id ∷ seen) rest

abbrev pub game_id_of : SeasonGameSelection → ℕ
game_id_of selection = selection.game.metadata.game_id

abbrev pub is_included : Bool → SeasonGameSelection → Bool
is_included include_unverified selection = include_unverified || selection.game.metadata.is_verified

-- By game: the checks leave no two games with the same identifier, so the side is never compared.
abbrev pub included_games : SeasonStatisticsInput → List SeasonGameSelection
included_games input =
    sort_by game_id_of (filter (is_included input.include_unverified) input.games)

abbrev pub excluded_game_ids : SeasonStatisticsInput → List ℕ
excluded_game_ids input =
    sort_by (λ n. n)
      (map game_id_of (filter (λ g. not (is_included input.include_unverified g)) input.games))

module _ {C R : Type 0} where
  -- The lines of the selected side of each game.
  abbrev pub selected_lines :
      (GameStatisticsProjection → List (PlayerLine C R))
      → List SeasonGameSelection
      → List (PlayerLine C R)
  selected_lines lines_of [] = []
  selected_lines lines_of (selection ∷ rest) =
      filter (λ (line : PlayerLine C R). line.side == selection.side) (lines_of selection.game)
      ++ selected_lines lines_of rest

abbrev pub batting_of : GameStatisticsProjection → List (PlayerLine BattingCounters BattingRates)
batting_of p = p.lines.batting_lines

abbrev pub pitching_of : GameStatisticsProjection → List (PlayerLine PitchingCounters PitchingRates)
pitching_of p = p.lines.pitching_lines

abbrev pub fielding_of : GameStatisticsProjection → List (PlayerLine FieldingCounters FieldingRates)
fielding_of p = p.lines.fielding_lines

pub record SeasonMetadata : Type 0 where
  pub account_id : ℕ
  pub season_id : ℕ
  pub team_id : ℕ
  pub derivation_version : ℕ
  pub statistic_rules_version : ℕ
  pub included_game_ids : List ℕ
  pub excluded_unverified_game_ids : List ℕ
  pub ruleset_version_ids : List ℕ
  pub source_revisions : List (ℕ × ℕ)

pub record SeasonStatisticsProjection : Type 0 where
  pub metadata : SeasonMetadata
  pub team : TeamStatistics
  pub batting : List (SeasonLine BattingCounters BattingRates)
  pub pitching : List (SeasonLine PitchingCounters PitchingRates)
  pub fielding : List (SeasonLine FieldingCounters FieldingRates)

abbrev pub season_metadata : SeasonStatisticsInput → List SeasonGameSelection → SeasonMetadata
season_metadata input included = record {
  account_id = input.account_id;
  season_id = input.season_id;
  team_id = input.team_id;
  derivation_version = 2;
  statistic_rules_version = 1;
  included_game_ids = map game_id_of included;
  excluded_unverified_game_ids = excluded_game_ids input;
  ruleset_version_ids =
      sort_by (λ n. n)
        (unique (map (λ (g : SeasonGameSelection). g.game.metadata.ruleset_version_id) included));
  source_revisions =
      map (λ (g : SeasonGameSelection). (g.game.metadata.game_id, g.game.metadata.source_revision))
        included;
}

-- An empty identifier is 0.
unfoldable pub derive_season_statistics : SeasonStatisticsInput → Result SeasonStatisticsProjection
unfolding aggregate_players check_games
derive_season_statistics input =
    let included = included_games input in
    do
      reject (input.account_id == 0 || input.season_id == 0 || input.team_id == 0)
          StatisticErrorCode.missing_attribution
      check_games input [] input.games
      batting ← aggregate_players derive_batting_rates (selected_lines batting_of included)
      pitching ← aggregate_players derive_pitching_rates (selected_lines pitching_of included)
      fielding ← aggregate_players derive_fielding_rates (selected_lines fielding_of included)
      team_batting ← season_team derive_batting_rates batting
      team_pitching ← season_team derive_pitching_rates pitching
      team_fielding ← season_team derive_fielding_rates fielding
      ok (record {
        metadata = season_metadata input included;
        team = record {
          batting = team_batting;
          pitching = team_pitching;
          fielding = team_fielding;
        };
        batting = batting;
        pitching = pitching;
        fielding = fielding;
      })
