-- ===== src/Statistics/Game/Consistent.antt =====
-- What a projection that is derived agrees on.
use baseballstattrack.Common.{
  ℕ, ◌≡◌, refl, sym, ◌∙◌, not, Option, List, get_or, ◌==◌, nat_eq, Dict, Result, ok, err, reject,
  StatisticErrorCode, arith, >>=-eq-ok, checked-eq-ok, reject_passed, ok-injective, eq_of_beq,
}
use baseballstattrack.Events.Enums.{GameSide, home, away}
use baseballstattrack.Events.State.{Sides, at_side, AcceptedEvent, AcceptedSetup}
use baseballstattrack.Engine.Replay.{Timeline, EffectiveReplayStep, replay_game_timeline}
use baseballstattrack.Statistics.Rates.{is_safe}
use baseballstattrack.Statistics.Tally.{Tallies, nothing_tallied, opposite, player_side_index}
use baseballstattrack.Statistics.Steps.{tally_steps}
use baseballstattrack.Statistics.Steps.Totals.{total_runs}
use baseballstattrack.Statistics.Steps.Score.{replay_game_timeline-score}
use baseballstattrack.Statistics.Game.Totals.{Counted, teams-Counted}
use baseballstattrack.Statistics.Game.Reconciled.{reconcile_side-outs}
use baseballstattrack.Statistics.Derive.{
  Lines, TeamStatistics, GameStatisticsProjection, all_lines, team_statistics, reconcile_side,
  assert_equal, fielding_outs,
}
use baseballstattrack.Statistics.Game.{
  derived_replay, reconcile, derive_from_timeline, derive_game_statistics,
}

-- What a projection says of one side at bat, by the steps of the replay: the runs and the hits of the
-- side are those that count in the steps in which it bats, for its batters, for the opponents'
-- pitchers and in the final score; and the outs of those pitchers are the putouts of their fielders.
pub record SideAgrees (p : GameStatisticsProjection) (steps : List EffectiveReplayStep)
    (side : GameSide) : Type 0 where
  pub counted : Counted side steps p.teams
  pub final_runs : at_side p.final_score side ≡ total_runs side steps
  pub outs_made :
      (at_side p.teams (opposite side)).pitching.counters.outs_recorded
      ≡ fielding_outs (opposite side) p.lines.fielding_lines

assert_equal-eq : (m n : ℕ) → assert_equal m n ≡ ok tt → m ≡ n
assert_equal-eq m n e =
    let same = reject_passed (not (m == n)) _ e in eq_of_beq m n (ground (arith, same))

-- What a replay that is turned into a derivation's result has returned.
derived_replay-ok : (r : Result Timeline) (t : Timeline) → derived_replay r ≡ ok t → r ≡ ok t
unfolding derived_replay
derived_replay-ok (ok t) u e = e
derived_replay-ok (err failure) u e = ground arith

-- What is left of the checks of a side is that its opponents' outs are their putouts.
reconciled_outs :
    (setup : AcceptedSetup) (events : List AcceptedEvent) (timeline : Timeline)
    (index : Dict ℕ GameSide) (t : Tallies) (lines : Lines) (teams : Sides TeamStatistics)
    (side : GameSide)
    → replay_game_timeline setup events ≡ ok timeline
    → tally_steps index setup timeline.steps nothing_tallied ≡ ok t
    → all_lines index t ≡ ok lines
    → ((asked : GameSide) → team_statistics asked lines ≡ ok (at_side teams asked))
    → reconcile_side side teams lines t.inning_runs timeline.state.score ≡ ok tt
    → (at_side teams (opposite side)).pitching.counters.outs_recorded
      ≡ fielding_outs (opposite side) lines.fielding_lines
reconciled_outs setup events timeline index t lines teams side played tallied listed summed e =
    let left =
      reconcile_side-outs setup events timeline index t lines teams side played tallied listed
        summed in
    assert_equal-eq _ _ (sym left ∙ e)

reconcile-side :
    (teams : Sides TeamStatistics) (lines : Lines) (t : Tallies) (score : Sides ℕ)
    → reconcile teams lines t score ≡ ok tt
    → (side : GameSide) → reconcile_side side teams lines t.inning_runs score ≡ ok tt
unfolding reconcile
reconcile-side teams lines t score e =
    let (visitors, hosts) =
      checked-eq-ok (reconcile_side away teams lines t.inning_runs score) _ e in
    elim [ home ↦ hosts | away ↦ visitors ]

derive_from_timeline-agrees :
    (setup : AcceptedSetup) (events : List AcceptedEvent) (revision : ℕ) (timeline : Timeline)
    (p : GameStatisticsProjection)
    → replay_game_timeline setup events ≡ ok timeline
    → derive_from_timeline setup events revision timeline ≡ ok p
    → (p.final_score ≡ timeline.state.score)
      × ((side : GameSide) → SideAgrees p timeline.steps side)
unfolding derive_from_timeline
derive_from_timeline-agrees setup events revision timeline p played e =
    let (index, _, k1) = >>=-eq-ok (player_side_index setup) _ e in
    let (t, tallied, k2) =
      >>=-eq-ok (tally_steps index setup timeline.steps nothing_tallied) _ k1 in
    let (lines, listed, k3) = >>=-eq-ok (all_lines index t) _ k2 in
    let (visitors, of_away, k4) = >>=-eq-ok (team_statistics away lines) _ k3 in
    let (hosts, of_home, k5) = >>=-eq-ok (team_statistics home lines) _ k4 in
    let teams : Sides TeamStatistics = record { home_side = hosts; away_side = visitors } in
    let (passed, done) = checked-eq-ok (reconcile teams lines t timeline.state.score) _ k5 in
    let summed : (asked : GameSide) → team_statistics asked lines ≡ ok (at_side teams asked) =
      elim [ home ↦ of_home | away ↦ of_away ] in
    rw (← ok-injective _ p done) (
      refl,
      λ side. record {
        counted = teams-Counted setup timeline.steps index t lines teams side tallied listed summed;
        final_runs = replay_game_timeline-score side setup events timeline played;
        outs_made =
            reconciled_outs setup events timeline index t lines teams side played tallied listed
              summed (reconcile-side teams lines t timeline.state.score passed side);
      },
    )

-- Statistics that are derived are those of the game as replayed: the replay returns a timeline, whose
-- score is their final score, and for each side the runs of its batters, the runs that the opponents'
-- pitchers have allowed and its final score are the runs that count in the steps in which it bats, the
-- hits of its batters and those that the opponents' pitchers have allowed are the hits of those steps,
-- and the outs of the opponents' pitchers are the putouts of their fielders.
pub derive_game_statistics-agrees :
    (setup : AcceptedSetup) (events : List AcceptedEvent) (revision rules : Option ℕ)
    (p : GameStatisticsProjection)
    → derive_game_statistics setup events revision rules ≡ ok p
    → (t : Timeline) × (replay_game_timeline setup events ≡ ok t)
      × (p.final_score ≡ t.state.score)
      × ((side : GameSide) → SideAgrees p t.steps side)
unfolding derive_game_statistics
derive_game_statistics-agrees setup events revision rules p e =
    let (_, k1) =
      checked-eq-ok (reject (not (get_or rules 1 == 1)) StatisticErrorCode.unsupported_ruleset) _
        e in
    let (_, k2) =
      checked-eq-ok
        (reject (not (is_safe (get_or revision 0))) StatisticErrorCode.impossible_counter_state) _
        k1 in
    let (t, replayed, derived) =
      >>=-eq-ok (derived_replay (replay_game_timeline setup events)) _ k2 in
    let played = derived_replay-ok (replay_game_timeline setup events) t replayed in
    let (score, agrees) =
      derive_from_timeline-agrees setup events (get_or revision 0) t p played derived in
    (t, played, score, agrees)
