-- ===== src/Tests/Witnesses.antt =====
-- Each theorem of the results at a concrete input.
use baseballstattrack.Common.{
  ◌+◌, ◌≡◌, refl, true, none, some, [], ◌∷◌, ◌++◌, length, if◌then◌else◌, nat_eq, contains,
  distinct, ok, raise, ◌>>=◌, EventErrorCode, arith,
}
use baseballstattrack.Events.Enums.{
  away, first, second, third, GameStatus, in_progress, SchemaVersion,
}
use baseballstattrack.Events.Equality.{
  side_eq, position_eq, base_eq, origin_eq, cause_eq, outcome_eq, credit_eq, play_type_eq,
  policy_eq, status_eq, destination_eq,
}
use baseballstattrack.Events.State.{at_base, GameState}
use baseballstattrack.Events.Bodies.{
  plate_appearance_recorded, stolen_base_attempt_recorded, play, correction_applied, game_started,
  game_suspended,
}
use baseballstattrack.Events.Schema.{event_body_valid}
use baseballstattrack.Events.Parse.{parse_event_body}
use baseballstattrack.Engine.Lifecycle.{abandon_game}
use baseballstattrack.Engine.Apply.Classified.{play_admitted, parse_event_body-play}
use baseballstattrack.Events.Parse.Unclassified.{unclassified_steal}
use baseballstattrack.Engine.Setup.{create_initial_state, player_ids}
use baseballstattrack.Engine.Setup.Initial.{create_initial_state-Sound}
use baseballstattrack.Engine.Movement.{write_movements, origins}
use baseballstattrack.Engine.Movement.Runs.{counted_runs, credited}
use baseballstattrack.Engine.Movement.Placement.{arrival, placed}
use baseballstattrack.Engine.Movement.Integrity.{RunnersSound, write_movements-base}
use baseballstattrack.Engine.Apply.Results.{
  OutsCounted, apply_play-score, apply_play-outs, apply_play-force_out,
}
use baseballstattrack.Engine.Apply.Doubled.{batter_on_two_bases}
use baseballstattrack.Engine.Apply.Lifecycle.{
  Transition, StatusMoved, apply_body-Transition, lifecycle-StatusMoved,
}
use baseballstattrack.Engine.Apply.Soundness.{Sound}
use baseballstattrack.Engine.Apply.Invariant.{apply_body-Sound}
use baseballstattrack.Engine.Corrections.{by_sequence}
use baseballstattrack.Engine.Corrections.Suppression.{Claimed, resolve_corrections-Claimed}
use baseballstattrack.Engine.Replay.{replay_game_timeline, replay_effective}
use baseballstattrack.Engine.Replay.Contiguous.{Numbered, replay_effective-Numbered}
use baseballstattrack.Engine.Replay.Incremental.{apply_events, replay_effective-apply_events}
use baseballstattrack.Engine.Replay.Reordering.{swap, replay_game_timeline-Reordered}
use baseballstattrack.Engine.Replay.Soundness.{replay_game_timeline-Sound}
use baseballstattrack.Tests.Game.{
  setup, created, live, man_on_second, two_out, scoring_double, single_behind, force_out, log,
  corrected_log, abandoned_log, reversed_log, event, double_of_21, steal_home, steal_correction,
  batter_again, again, again_play, again_appearance,
}
use baseballstattrack.Tests.Runs.{run_play, run_body, run_setup, run_log, run_resolution}

-- The double drives in the runner.
double_scores :
    (run_play man_on_second (plate_appearance_recorded scoring_double)).score.away_side ≡ 1
unfolding run_play
double_scores = refl

-- The corrected double leaves the batter on first base.
abandoned_status : (run_log abandoned_log).state.status ≡ GameStatus.abandoned
unfolding run_log abandon_game
abandoned_status = refl

-- A reversal of the abandonment is accepted, and the game is live again.
reversed_status :
    (replay_game_timeline setup reversed_log ≡ ok (run_log reversed_log))
    × ((run_log reversed_log).state.status ≡ in_progress)
unfolding run_log
reversed_status = (refl, refl)

corrected_single : (run_log corrected_log).state.bases.on_first ≡ some 21
unfolding run_log
corrected_single = refl

log_scores : (run_log log).state.score.away_side ≡ 1
unfolding run_log
log_scores = refl

setup-Sound : Sound created
unfolding run_setup
setup-Sound = (create_initial_state-Sound setup created refl).0

create_initial_state-Sound_example :
    Sound created
    × (distinct (player_ids (created.lineups.home_side ++ created.lineups.away_side)) ≡ true)
unfolding run_setup
create_initial_state-Sound_example = create_initial_state-Sound setup created refl

replay_game_timeline-Sound_example : Sound (run_log corrected_log).state
unfolding run_log
replay_game_timeline-Sound_example =
    replay_game_timeline-Sound setup corrected_log (run_log corrected_log) refl
      (tt, ((λ b h. ground arith), (tt, tt)))

replay_effective-apply_events_example :
    replay_effective setup log
    ≡ (create_initial_state setup >>= apply_events (λ s. s.outs) (by_sequence log))
replay_effective-apply_events_example =
    replay_effective-apply_events (λ s. s.outs) setup log refl refl

replay_effective-Numbered_example :
    Numbered 0 (by_sequence log)
    × ((run_log log).state.source_revision ≡ length log)
    × ((run_log log).state.last_sequence ≡ length log)
unfolding run_log replay_effective
replay_effective-Numbered_example = replay_effective-Numbered setup log (run_log log).state refl

replay_game_timeline-Reordered_example :
    replay_game_timeline setup (event 101 1 game_started ∷ event 102 2 double_of_21 ∷ [])
    ≡ replay_game_timeline setup (event 102 2 double_of_21 ∷ event 101 1 game_started ∷ [])
replay_game_timeline-Reordered_example =
    replay_game_timeline-Reordered setup (event 101 1 game_started ∷ event 102 2 double_of_21 ∷ [])
      (event 102 2 double_of_21 ∷ event 101 1 game_started ∷ [])
      (swap (event 101 1 game_started) (event 102 2 double_of_21) (omega arith))

live-Sound : Sound live
unfolding run_setup
live-Sound = record {
  outs = setup-Sound.outs;
  pitchers = setup-Sound.pitchers;
  runners = record { apart = setup-Sound.runners.apart; tracked = setup-Sound.runners.tracked };
  clock = refl;
}

-- The double of the first batter, from the start of the game.
apply_body-Sound_example : Sound (run_body live double_of_21)
unfolding run_body
apply_body-Sound_example =
    apply_body-Sound live double_of_21 (run_body live double_of_21) refl (λ b h. ground arith)
      live-Sound

apply_play-score_example :
    (run_play man_on_second (plate_appearance_recorded scoring_double)).score.away_side
    ≡ 0 + credited man_on_second away (counted_runs scoring_double.movements)
unfolding run_play
apply_play-score_example =
    apply_play-score man_on_second (plate_appearance_recorded scoring_double)
      (run_play man_on_second (plate_appearance_recorded scoring_double)) away refl

apply_play-outs_example :
    OutsCounted two_out 3 (run_play two_out (plate_appearance_recorded force_out))
unfolding run_play
apply_play-outs_example =
    apply_play-outs two_out (plate_appearance_recorded force_out)
      (run_play two_out (plate_appearance_recorded force_out)) refl refl

apply_play-force_out_example :
    (run_play two_out (plate_appearance_recorded force_out)).score.away_side ≡ 0
unfolding run_play
apply_play-force_out_example =
    apply_play-force_out two_out (plate_appearance_recorded force_out)
      (run_play two_out (plate_appearance_recorded force_out)) away refl refl

apply_body-Transition_example : Transition in_progress GameStatus.suspended
unfolding run_body
apply_body-Transition_example =
    apply_body-Transition live (game_suspended 1) (run_body live (game_suspended 1)) refl

abbrev abandoned : GameState
abandoned = record live { status = GameStatus.abandoned }

lifecycle-StatusMoved_example : StatusMoved live (run_body live (game_suspended 1))
unfolding run_body
lifecycle-StatusMoved_example =
    lifecycle-StatusMoved live (game_suspended 1) (run_body live (game_suspended 1)) refl refl

write_movements-base_example :
    at_base (write_movements man_on_second single_behind.movements).bases third
    ≡ placed
        (if contains (origins single_behind.movements) third
          then none
          else at_base man_on_second.bases third)
        (arrival third single_behind.movements)
write_movements-base_example = write_movements-base man_on_second single_behind.movements third refl

parse_event_body-play_example :
    parse_event_body (play (stolen_base_attempt_recorded steal_home)) SchemaVersion.v3 ≡ (
      if play_admitted SchemaVersion.v3 live (stolen_base_attempt_recorded steal_home)
      then ok (play (stolen_base_attempt_recorded steal_home))
      else raise EventErrorCode.invalid_payload)
parse_event_body-play_example =
    parse_event_body-play live (stolen_base_attempt_recorded steal_home) SchemaVersion.v3

unclassified_steal_example :
    (parse_event_body (play (stolen_base_attempt_recorded steal_home)) SchemaVersion.v3
      ≡ raise EventErrorCode.invalid_payload)
    × (parse_event_body (correction_applied steal_correction) SchemaVersion.v3
        ≡ ok (correction_applied steal_correction))
unfolding event_body_valid
unclassified_steal_example = unclassified_steal steal_home steal_correction refl refl refl refl

batter_on_two_bases_example :
    (at_base (run_play again again_play).bases first ≡ some 21)
    × (at_base (run_play again again_play).bases second ≡ some 21)
    × ¬ RunnersSound (run_play again again_play)
unfolding run_play
batter_on_two_bases_example =
    batter_on_two_bases again again_appearance batter_again (run_play again again_play) first second
      (omega arith) refl refl refl refl (λ e. cc) refl

-- The double is suppressed by the correction after it.
resolve_corrections-Claimed_example : Claimed (by_sequence corrected_log) 102
unfolding run_resolution
resolve_corrections-Claimed_example =
    resolve_corrections-Claimed corrected_log (run_resolution corrected_log) 102 refl refl
