-- ===== src/Tests/Season.antt =====
-- A season of two games, one of them that of `Statistics`.
use baseballstattrack.Common.{◌≡◌, refl, true, List, [], ◌∷◌, nat_eq, filter, Result, ok}
use baseballstattrack.Events.Enums.{away}
use baseballstattrack.Events.Equality.{side_eq}
use baseballstattrack.Statistics.Rates.{exact_rate, add_exact_rates, greatest_common_divisor}
use baseballstattrack.Statistics.Counters.{
  BattingCounters, PitchingCounters, FieldingCounters, batting_tally, pitching_tally,
  fielding_tally,
}
use baseballstattrack.Statistics.PlayerRates.{
  derive_batting_rates, derive_pitching_rates, derive_fielding_rates,
}
use baseballstattrack.Statistics.Derive.{GameStatisticsProjection}
use baseballstattrack.Statistics.Season.{
  SeasonGameSelection, SeasonStatisticsInput, SeasonStatisticsProjection, check_game, check_games,
  aggregate_players, add_lines, finish_lines, is_included, batting_of, pitching_of, fielding_of,
  derive_season_statistics,
}
use baseballstattrack.Statistics.Season.Totals.{sum_of, of_game}
use baseballstattrack.Statistics.Season.Team.{derive_season_statistics-sums}
use baseballstattrack.Statistics.Season.Reordering.{
  Rearranged, with_games, derive_season_statistics-Rearranged,
}
use baseballstattrack.Tests.Runs.{value_or}
use baseballstattrack.Tests.Statistics.{empty_projection, run_statistics}

abbrev of_visitors : GameStatisticsProjection → SeasonGameSelection
of_visitors p = record { game = p; side = away; season_id = 1; team_id = 2 }

abbrev rained_out : GameStatisticsProjection
rained_out = record empty_projection {
  metadata = record empty_projection.metadata { account_id = 6; game_id = 3 };
}

abbrev played : GameStatisticsProjection
played = value_or empty_projection run_statistics

abbrev games : List SeasonGameSelection
games = of_visitors played ∷ of_visitors rained_out ∷ []

abbrev input : SeasonStatisticsInput
input = record {
  account_id = 6;
  season_id = 1;
  team_id = 2;
  games = games;
  include_unverified = true;
}

unfoldable run_season : Result SeasonStatisticsProjection
unfolding run_statistics derive_season_statistics check_games check_game aggregate_players add_lines
    finish_lines derive_batting_rates derive_pitching_rates derive_fielding_rates exact_rate
    add_exact_rates greatest_common_divisor
run_season = derive_season_statistics input

abbrev empty_season : SeasonStatisticsProjection
empty_season = record {
  metadata = record {
    account_id = 0;
    season_id = 0;
    team_id = 0;
    derivation_version = 2;
    statistic_rules_version = 1;
    included_game_ids = [];
    excluded_unverified_game_ids = [];
    ruleset_version_ids = [];
    source_revisions = [];
  };
  team = empty_projection.teams.home_side;
  batting = [];
  pitching = [];
  fielding = [];
}

abbrev season : SeasonStatisticsProjection
season = value_or empty_season run_season

one_run : season.team.batting.counters.runs ≡ 1
unfolding run_season
one_run = refl

derived : derive_season_statistics input ≡ ok season
unfolding run_season
derived = refl

derive_season_statistics-sums_example :
    (season.team.batting.counters.runs
      ≡ sum_of
          (of_game (λ (c : BattingCounters). c.runs) batting_of)
          (filter (is_included true) games))
    × (season.team.pitching.counters.walks
        ≡ sum_of
            (of_game (λ (c : PitchingCounters). c.walks) pitching_of)
            (filter (is_included true) games))
    × (season.team.fielding.counters.putouts
        ≡ sum_of
            (of_game (λ (c : FieldingCounters). c.putouts) fielding_of)
            (filter (is_included true) games))
derive_season_statistics-sums_example =
    derive_season_statistics-sums (λ c. c.runs) (λ c. c.walks) (λ c. c.putouts) refl refl refl
      (λ a b. refl) (λ a b. refl) (λ a b. refl) input season derived

derive_season_statistics-Rearranged_example :
    (check_games input [] (of_visitors rained_out ∷ of_visitors played ∷ []) ≡ ok tt)
    × (derive_season_statistics (with_games games input)
        ≡ derive_season_statistics
            (with_games (of_visitors rained_out ∷ of_visitors played ∷ []) input))
unfolding run_season
derive_season_statistics-Rearranged_example =
    derive_season_statistics-Rearranged input games
      (of_visitors rained_out ∷ of_visitors played ∷ [])
      (Rearranged.swap (of_visitors played) (of_visitors rained_out)) refl
