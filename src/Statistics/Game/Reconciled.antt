-- ===== src/Statistics/Game/Reconciled.antt =====
-- The reconciliation of a replayed game: which of its checks can fail.
use baseballstattrack.Common.{
  ℕ, ◌≡◌, inl, inr, List, ◌==◌, nat_eq, beq_refl, Dict, ok, ◌>>◌, arith, Bool-cases,
}
use baseballstattrack.Events.Enums.{GameSide}
use baseballstattrack.Events.Equality.{side_eq}
use baseballstattrack.Events.State.{Sides, at_side, AcceptedEvent, AcceptedSetup}
use baseballstattrack.Engine.Replay.{Timeline, EffectiveReplayStep, replay_game_timeline}
use baseballstattrack.Statistics.Counters.{batting_tally, pitching_tally, fielding_tally}
use baseballstattrack.Statistics.Tally.{Tallies, nothing_tallied, opposite}
use baseballstattrack.Statistics.Tally.Totals.{
  runs_of, hits_of, runs_allowed_to, hits_allowed_to, inning_runs_of,
}
use baseballstattrack.Statistics.Steps.{tally_steps}
use baseballstattrack.Statistics.Steps.Totals.{total_runs, total_hits, tally_steps-Posted}
use baseballstattrack.Statistics.Steps.Score.{replay_game_timeline-score}
use baseballstattrack.Statistics.Derive.{
  Lines, TeamStatistics, all_lines, team_statistics, reconcile_side, assert_equal, fielding_outs,
}
use baseballstattrack.Statistics.Game.Totals.{team_statistics-IsTeam, teams-Counted}

assert_equal-equal : (m n : ℕ) → m ≡ n → assert_equal m n ≡ ok tt
assert_equal-equal m n e = ground (arith, beq_refl n)

-- After the steps of a replay the runs of a side's batters, those that the other side's pitchers allow
-- and those of its innings are the runs of the steps, and its hits and those that the other side's
-- pitchers allow are the hits of the steps.
pub tally_steps-balanced :
    (index : Dict ℕ GameSide) (setup : AcceptedSetup) (steps : List EffectiveReplayStep)
    (t : Tallies) (side : GameSide)
    → tally_steps index setup steps nothing_tallied ≡ ok t
    → (runs_of index side t ≡ total_runs side steps)
      × (runs_allowed_to index side t ≡ total_runs side steps)
      × (inning_runs_of index side t ≡ total_runs side steps)
      × (hits_of index side t ≡ total_hits side steps)
      × (hits_allowed_to index side t ≡ total_hits side steps)
tally_steps-balanced index setup steps t side e =
    let p = tally_steps-Posted index setup side steps nothing_tallied t e in
    (omega arith, omega arith, omega arith, omega arith, omega arith)

-- Checks around one that is left.
one_check_left :
    (runs score bases expected innings outs putouts given_hits hits given : ℕ)
    → runs ≡ score
    → bases ≡ expected
    → innings ≡ score
    → given_hits ≡ hits
    → given ≡ runs
    → (do
      assert_equal runs score
      assert_equal bases expected
      assert_equal innings score
      assert_equal outs putouts
      assert_equal given_hits hits
      assert_equal given runs)
      ≡ assert_equal outs putouts
one_check_left runs score bases expected innings outs putouts given_hits hits given a b c d e =
    rw
      (
        assert_equal-equal runs score a,
        assert_equal-equal bases expected b,
        assert_equal-equal innings score c,
        assert_equal-equal given_hits hits d,
        assert_equal-equal given runs e,
      )
      (elim (Bool-cases (outs == putouts)) [ inl same ↦ ground arith | inr other ↦ ground arith ])

-- Five of the six checks of a side cannot fail once the lines and the teams are derived from the
-- replay of the log: the side's runs and its innings' runs agree with the score, its total bases with
-- its hits, and the other side's pitchers have allowed the hits and the runs that it has made. What
-- is left is that the outs of those pitchers are the putouts of their fielders.
pub reconcile_side-outs :
    (setup : AcceptedSetup) (events : List AcceptedEvent) (timeline : Timeline)
    (index : Dict ℕ GameSide) (t : Tallies) (lines : Lines) (teams : Sides TeamStatistics)
    (side : GameSide)
    → replay_game_timeline setup events ≡ ok timeline
    → tally_steps index setup timeline.steps nothing_tallied ≡ ok t
    → all_lines index t ≡ ok lines
    → ((asked : GameSide) → team_statistics asked lines ≡ ok (at_side teams asked))
    → reconcile_side side teams lines t.inning_runs timeline.state.score
      ≡ assert_equal
          (at_side teams (opposite side)).pitching.counters.outs_recorded
          (fielding_outs (opposite side) lines.fielding_lines)
unfolding reconcile_side
reconcile_side-outs setup events timeline index t lines teams side played tallied listed summed =
    let team = team_statistics-IsTeam side lines (at_side teams side) (summed side) in
    let counted =
      teams-Counted setup timeline.steps index t lines teams side tallied listed summed in
    let score = replay_game_timeline-score side setup events timeline played in
    let (_, _, innings, _, _) = tally_steps-balanced index setup timeline.steps t side tallied in
    let runs_made = counted.runs_made in
    let hits_made = counted.hits_made in
    let runs_given = counted.runs_given in
    let hits_given = counted.hits_given in
    one_check_left _ _ _ _ _ _ _ _ _ _ (omega arith) team.bases (omega arith) (omega arith)
      (omega arith)
