-- ===== src/Tests/Statistics.antt =====
-- The statistics of the games of `Game`.
use baseballstattrack.Common.{
  ◌<◌, ◌≤◌, ℕ, ◌≡◌, ◌⊎◌, refl, false, none, some, [], nat_eq, length, Dict, Result, ok, err,
  underivable, StatisticErrorCode, arith,
}
use baseballstattrack.Events.Enums.{GameSide, home, away, GameStatus}
use baseballstattrack.Events.Equality.{
  side_eq, position_eq, base_eq, origin_eq, cause_eq, outcome_eq, credit_eq, play_type_eq,
  policy_eq, status_eq, destination_eq,
}
use baseballstattrack.Events.State.{Sides, at_side}
use baseballstattrack.Engine.Replay.{Timeline, replay_game_timeline}
use baseballstattrack.Statistics.Rates.{
  ExactRate, exact_rate, add_exact_rates, greatest_common_divisor,
}
use baseballstattrack.Statistics.Rates.Lowest.{
  IsLowest, exact_rate-IsLowest, add_exact_rates-IsLowest, sum_numerator, sum_denominator,
  first_unsafe,
}
use baseballstattrack.Statistics.Counters.{batting_tally, pitching_tally, fielding_tally}
use baseballstattrack.Statistics.PlayerRates.{
  derive_batting_rates, derive_pitching_rates, derive_fielding_rates,
}
use baseballstattrack.Statistics.Tally.{
  Tallies, nothing_tallied, player_side_index, index_lineup, step_batting_side, credit_batter,
  credit_pitcher, credit_fielder, record_inning, record_inning_run, assert_earned_run, credit_run,
  apply_counting_run,
}
use baseballstattrack.Statistics.Tally.Totals.{
  runs_of, hits_of, runs_allowed_to, hits_allowed_to, inning_runs_of,
}
use baseballstattrack.Statistics.Plays.{batter_outcome, pitcher_outcome, credit_out_path}
use baseballstattrack.Statistics.Steps.{
  tally_steps, tally_body, tally_start, tally_plate_appearance,
}
use baseballstattrack.Statistics.Credits.{
  credit_runs, credit_defense, credit_fielding, credit_out_paths, credit_multiple_play,
}
use baseballstattrack.Statistics.Steps.Totals.{total_runs, total_hits}
use baseballstattrack.Statistics.Steps.Score.{replay_game_timeline-score}
use baseballstattrack.Statistics.Derive.{
  Lines, TeamStatistics, GameStatisticsProjection, GameOutcome, all_lines, team_statistics,
  player_lines, reconcile_side, assert_equal, fielding_outs, scoring_outcome,
}
use baseballstattrack.Statistics.Game.{
  derive_game_statistics, derive_from_timeline, derived_replay, reconcile,
}
use baseballstattrack.Statistics.Game.Reconciled.{tally_steps-balanced, reconcile_side-outs}
use baseballstattrack.Statistics.Game.Consistent.{SideAgrees, derive_game_statistics-agrees}
use baseballstattrack.Tests.Game.{setup, log}
use baseballstattrack.Tests.Runs.{value_or, run_log}

replay_game_timeline-score_example :
    at_side (run_log log).state.score away ≡ total_runs away (run_log log).steps
unfolding run_log
replay_game_timeline-score_example = replay_game_timeline-score away setup log (run_log log) refl

unfoldable run_index : Dict ℕ GameSide
unfolding player_side_index index_lineup
run_index = value_or [] (player_side_index setup)

unfoldable run_tallies : Tallies
unfolding run_log run_index tally_steps tally_body tally_start tally_plate_appearance credit_runs
    credit_defense credit_fielding credit_out_paths credit_multiple_play step_batting_side
    credit_batter credit_pitcher credit_fielder record_inning record_inning_run assert_earned_run
    credit_run apply_counting_run batter_outcome pitcher_outcome credit_out_path
run_tallies =
    value_or nothing_tallied (tally_steps run_index setup (run_log log).steps nothing_tallied)

two_hits : length run_tallies.batting ≡ 2
unfolding run_tallies
two_hits = refl

half_rate : exact_rate 2 4 ≡ ok (some (record { numerator = 1; denominator = 2 }))
unfolding exact_rate greatest_common_divisor
half_rate = refl

unfoldable run_lines : Lines
unfolding run_tallies all_lines player_lines derive_batting_rates derive_pitching_rates
    derive_fielding_rates exact_rate add_exact_rates greatest_common_divisor
run_lines =
    value_or (record { batting_lines = []; pitching_lines = []; fielding_lines = [] })
      (all_lines run_index run_tallies)

two_lines : length run_lines.batting_lines ≡ 2
unfolding run_lines
two_lines = refl

unfoldable run_team : GameSide → Result TeamStatistics
unfolding run_lines team_statistics derive_batting_rates derive_pitching_rates derive_fielding_rates
    exact_rate add_exact_rates greatest_common_divisor
run_team side = team_statistics side run_lines

abbrev empty_team : TeamStatistics
empty_team = record {
  batting = record {
    counters = batting_tally.zero_counters;
    rates = record {
      batting_average = none;
      on_base_percentage = none;
      slugging_percentage = none;
      on_base_plus_slugging = none;
    };
  };
  pitching = record {
    counters = pitching_tally.zero_counters;
    rates = record { earned_run_average = none; walks_and_hits_per_inning_pitched = none };
  };
  fielding = record {
    counters = fielding_tally.zero_counters;
    rates = record { chances = 0; fielding_percentage = none };
  };
}

unfoldable run_teams : Sides TeamStatistics
unfolding run_team
run_teams = record {
  home_side = value_or empty_team (run_team home);
  away_side = value_or empty_team (run_team away);
}

each_team : (asked : GameSide) → team_statistics asked run_lines ≡ ok (at_side run_teams asked)
unfolding run_teams
each_team home = refl
each_team away = refl

tallied : tally_steps run_index setup (run_log log).steps nothing_tallied ≡ ok run_tallies
unfolding run_tallies
tallied = refl

listed : all_lines run_index run_tallies ≡ ok run_lines
unfolding run_lines
listed = refl

tally_steps-balanced_example :
    (runs_of run_index away run_tallies ≡ total_runs away (run_log log).steps)
    × (runs_allowed_to run_index away run_tallies ≡ total_runs away (run_log log).steps)
    × (inning_runs_of run_index away run_tallies ≡ total_runs away (run_log log).steps)
    × (hits_of run_index away run_tallies ≡ total_hits away (run_log log).steps)
    × (hits_allowed_to run_index away run_tallies ≡ total_hits away (run_log log).steps)
tally_steps-balanced_example =
    tally_steps-balanced run_index setup (run_log log).steps run_tallies away tallied

log_replayed : replay_game_timeline setup log ≡ ok (run_log log)
unfolding run_log
log_replayed = refl

reconcile_side-outs_example :
    reconcile_side away run_teams run_lines run_tallies.inning_runs (run_log log).state.score
    ≡ assert_equal
        (at_side run_teams home).pitching.counters.outs_recorded
        (fielding_outs home run_lines.fielding_lines)
reconcile_side-outs_example =
    reconcile_side-outs setup log (run_log log) run_index run_tallies run_lines run_teams away
      log_replayed tallied listed each_team

abbrev pub empty_projection : GameStatisticsProjection
empty_projection = record {
  metadata = record {
    account_id = 0;
    game_id = 0;
    setup_snapshot_id = 0;
    setup_revision = 0;
    source_revision = 0;
    privacy_overlay_revision = 0;
    ruleset_version_id = 0;
    event_schema_versions = [];
    derivation_version = 2;
    statistic_rules_version = 1;
    lifecycle_status = GameStatus.ready;
    is_verified = false;
  };
  outcome = GameOutcome.undecided;
  final_score = record { home_side = 0; away_side = 0 };
  inning_lines = [];
  teams = record { home_side = empty_team; away_side = empty_team };
  lines = record { batting_lines = []; pitching_lines = []; fielding_lines = [] };
}

unfoldable pub run_statistics : Result GameStatisticsProjection
unfolding run_teams derive_game_statistics derived_replay derive_from_timeline reconcile
    reconcile_side scoring_outcome
run_statistics = derive_game_statistics setup log none none

visitors_lead : (value_or empty_projection run_statistics).final_score.away_side ≡ 1
unfolding run_statistics
visitors_lead = refl

derive_game_statistics-agrees_example :
    (t : Timeline) × (replay_game_timeline setup log ≡ ok t)
    × ((value_or empty_projection run_statistics).final_score ≡ t.state.score)
    × ((side : GameSide) → SideAgrees (value_or empty_projection run_statistics) t.steps side)
unfolding run_statistics
derive_game_statistics-agrees_example =
    derive_game_statistics-agrees setup log none none (value_or empty_projection run_statistics)
      refl

gcd_of_twelve : greatest_common_divisor 12 18 ≡ 6
unfolding greatest_common_divisor
gcd_of_twelve = refl

abbrev one_half : ExactRate
one_half = record { numerator = 1; denominator = 2 }

abbrev one_third : ExactRate
one_third = record { numerator = 1; denominator = 3 }

exact_rate-IsLowest_example :
    (rate : ExactRate) × (exact_rate 6 9 ≡ ok (some rate)) × IsLowest 6 9 rate
exact_rate-IsLowest_example = exact_rate-IsLowest 6 9 refl refl (omega arith)

add_exact_rates-IsLowest_example :
    (sum_numerator one_half one_third < first_unsafe)
      × (sum_denominator one_half one_third < first_unsafe)
      × ((rate : ExactRate) × (add_exact_rates (some one_half) (some one_third) ≡ ok (some rate))
          × IsLowest (sum_numerator one_half one_third) (sum_denominator one_half one_third) rate)
    ⊎ ((first_unsafe ≤ sum_numerator one_half one_third)
        ⊎ (first_unsafe ≤ sum_denominator one_half one_third))
      × (add_exact_rates (some one_half) (some one_third)
          ≡ err (underivable StatisticErrorCode.impossible_counter_state))
add_exact_rates-IsLowest_example =
    add_exact_rates-IsLowest one_half one_third (omega arith) (omega arith)
