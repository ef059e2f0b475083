-- ===== src/Statistics/Game.antt =====
-- `deriveGameStatistics`, src/domain/statistics/game-statistics.ts, as a whole.
pub mod Reconciled
pub mod Totals
pub mod Consistent
use baseballstattrack.Common.{
  ℕ, Bool, true, false, not, ◌||◌, Option, none, some, List, get_or, ◌==◌, nat_eq, Dict, Result, ok,
  err, reject, ◌>>=◌, ◌>>◌, thrown, underivable, type_error, Failure, EventErrorCode,
  StatisticErrorCode,
}
use baseballstattrack.Events.Enums.{GameSide, home, away, GameStatus}
use baseballstattrack.Events.Equality.{side_eq, status_eq}
use baseballstattrack.Events.State.{Sides, AcceptedEvent, AcceptedSetup, GameState}
use baseballstattrack.Engine.Replay.{Timeline, replay_game_timeline}
use baseballstattrack.Statistics.Rates.{is_safe}
use baseballstattrack.Statistics.Tally.{Tallies, nothing_tallied, player_side_index}
use baseballstattrack.Statistics.Steps.{tally_steps}
use baseballstattrack.Statistics.Derive.{
  Lines, TeamStatistics, all_lines, team_statistics, reconcile_side, scoring_outcome, inning_lines,
  event_schema_versions, GameStatisticsProjection,
}

-- What a failed replay becomes.
abbrev pub derivation_code : EventErrorCode → StatisticErrorCode
derivation_code EventErrorCode.correction_target_missing =
    StatisticErrorCode.invalid_correction_graph
derivation_code EventErrorCode.correction_graph_invalid =
    StatisticErrorCode.invalid_correction_graph
derivation_code EventErrorCode.account_mismatch = StatisticErrorCode.account_mismatch
derivation_code EventErrorCode.unsupported_schema_version =
    StatisticErrorCode.unsupported_event_version
derivation_code EventErrorCode.unsupported_event_type = StatisticErrorCode.unsupported_event_type
derivation_code _ = StatisticErrorCode.incomplete_replay_state

unfoldable pub derived_replay : Result Timeline → Result Timeline
derived_replay (ok t) = ok t
derived_replay (err (thrown code)) = err (underivable (derivation_code code))
derived_replay (err failure) = err failure

-- The visitors are reconciled before the home side.
unfoldable pub reconcile : Sides TeamStatistics → Lines → Tallies → Sides ℕ → Result (Unit {0})
unfolding reconcile_side
reconcile teams lines t score =
    reconcile_side away teams lines t.inning_runs score
    >> reconcile_side home teams lines t.inning_runs score

abbrev pub projection :
    AcceptedSetup
    → List AcceptedEvent
    → ℕ
    → GameState
    → Tallies
    → Lines
    → Sides TeamStatistics
    → GameStatisticsProjection
projection setup events privacy_overlay_revision state t lines teams = record {
  metadata = record {
    account_id = setup.account_id;
    game_id = setup.game_id;
    setup_snapshot_id = setup.id;
    setup_revision = setup.setup_revision;
    source_revision = state.source_revision;
    privacy_overlay_revision = privacy_overlay_revision;
    ruleset_version_id = setup.ruleset_version_id;
    event_schema_versions = event_schema_versions events;
    derivation_version = 2;
    statistic_rules_version = 1;
    lifecycle_status = state.status;
    is_verified = state.status == GameStatus.verified;
  };
  outcome = scoring_outcome state.status state.score;
  final_score = state.score;
  inning_lines = inning_lines t.inning_runs;
  teams = teams;
  lines = lines;
}

-- What follows the replay.
unfoldable pub derive_from_timeline :
    AcceptedSetup → List AcceptedEvent → ℕ → Timeline → Result GameStatisticsProjection
unfolding reconcile scoring_outcome
derive_from_timeline setup events privacy_overlay_revision timeline = do
  index ← player_side_index setup
  tallies ← tally_steps index setup timeline.steps nothing_tallied
  lines ← all_lines index tallies
  visitors ← team_statistics away lines
  hosts ← team_statistics home lines
  let teams : Sides TeamStatistics = record { home_side = hosts; away_side = visitors }
  reconcile teams lines tallies timeline.state.score
  ok (projection setup events privacy_overlay_revision timeline.state tallies lines teams)

unfoldable pub derive_game_statistics :
    AcceptedSetup → List AcceptedEvent → Option ℕ → Option ℕ → Result GameStatisticsProjection
unfolding derived_replay derive_from_timeline
derive_game_statistics setup events privacy_overlay_revision statistic_rules_version = do
  reject (not (get_or statistic_rules_version 1 == 1)) StatisticErrorCode.unsupported_ruleset
  reject (not (is_safe (get_or privacy_overlay_revision 0)))
      StatisticErrorCode.impossible_counter_state
  timeline ← derived_replay (replay_game_timeline setup events)
  derive_from_timeline setup events (get_or privacy_overlay_revision 0) timeline
