-- ===== src/Statistics/Game/Totals.antt =====
-- The teams of a replayed game, and the totals of its steps.
use baseballstattrack.Common.{
  ℕ, ◌≡◌, refl, ap, ◌∙◌, List, nat_eq, Dict, ok, reject, StatisticErrorCode, arith, >>=-eq-ok,
  checked-eq-ok, reject_passed, ok-injective, eq_of_beq,
}
use baseballstattrack.Events.Enums.{GameSide}
use baseballstattrack.Events.Equality.{side_eq}
use baseballstattrack.Events.State.{Sides, at_side, AcceptedSetup}
use baseballstattrack.Engine.Replay.{EffectiveReplayStep}
use baseballstattrack.Statistics.Counters.{
  BattingCounters, PitchingCounters, batting_tally, pitching_tally, fielding_tally,
}
use baseballstattrack.Statistics.PlayerRates.{
  batting_impossible, BattingRates, derive_batting_rates, derive_pitching_rates,
  derive_fielding_rates, validate_counters, expected_total_bases,
}
use baseballstattrack.Statistics.Tally.{Tallies, nothing_tallied, opposite}
use baseballstattrack.Statistics.Steps.{tally_steps}
use baseballstattrack.Statistics.Steps.Totals.{total_runs, total_hits, tally_steps-Posted}
use baseballstattrack.Statistics.Derive.{
  Lines, TeamStatistics, sorted_lines, all_lines, team_statistics, team_counters, team_line,
}
use baseballstattrack.Statistics.Derive.Teams.{team_counters-total}

-- A batting line has the total bases that its hits come to.
rates-bases :
    (c : BattingCounters) {r : BattingRates}
    → derive_batting_rates c ≡ ok r
    → c.total_bases ≡ expected_total_bases c
unfolding derive_batting_rates
rates-bases c e =
    let (_, k) = checked-eq-ok (validate_counters c) _ e in
    let (passed, _) =
      checked-eq-ok (reject (batting_impossible c) StatisticErrorCode.impossible_counter_state) _
        k in
    let possible = reject_passed (batting_impossible c) _ passed in
    eq_of_beq c.total_bases (expected_total_bases c) (ground (arith, possible))

pub sorted_parts :
    (index : Dict ℕ GameSide) (t : Tallies) (lines : Lines)
    → all_lines index t ≡ ok lines
    → (sorted_lines derive_batting_rates index t.batting ≡ ok lines.batting_lines)
      × (sorted_lines derive_pitching_rates index t.pitching ≡ ok lines.pitching_lines)
unfolding all_lines
sorted_parts index t lines e =
    let (batting, one, k) = >>=-eq-ok (sorted_lines derive_batting_rates index t.batting) _ e in
    let (pitching, two, k') = >>=-eq-ok (sorted_lines derive_pitching_rates index t.pitching) _ k in
    let (fielding, three, done) =
      >>=-eq-ok (sorted_lines derive_fielding_rates index t.fielding) _ k' in
    rw (← ok-injective _ lines done) (one, two)

-- What `team` gives: the sums of the lines of the side, whose rates can be derived.
pub record IsTeam (side : GameSide) (lines : Lines) (team : TeamStatistics) : Type 0 where
  pub batters : team.batting.counters ≡ team_counters side lines.batting_lines
  pub pitchers : team.pitching.counters ≡ team_counters side lines.pitching_lines
  pub bases : team.batting.counters.total_bases ≡ expected_total_bases team.batting.counters

pub team_statistics-IsTeam :
    (side : GameSide) (lines : Lines) (team : TeamStatistics)
    → team_statistics side lines ≡ ok team
    → IsTeam side lines team
unfolding team_statistics
team_statistics-IsTeam side lines team e =
    let (batting, one, k) =
      >>=-eq-ok (team_line derive_batting_rates side lines.batting_lines) _ e in
    let (pitching, two, k') =
      >>=-eq-ok (team_line derive_pitching_rates side lines.pitching_lines) _ k in
    let (fielding, three, done) =
      >>=-eq-ok (team_line derive_fielding_rates side lines.fielding_lines) _ k' in
    let (batting_rates, possible, batting_done) =
      >>=-eq-ok (derive_batting_rates (team_counters side lines.batting_lines)) _ one in
    let (pitching_rates, _, pitching_done) =
      >>=-eq-ok (derive_pitching_rates (team_counters side lines.pitching_lines)) _ two in
    rw
      (
        ← ok-injective _ team done,
        ← ok-injective _ batting batting_done,
        ← ok-injective _ pitching pitching_done,
      )
      (record {
        batters = refl;
        pitchers = refl;
        bases = rates-bases (team_counters side lines.batting_lines) possible;
      })

-- What the teams of a derived game count for a side at bat: the runs and the hits of the steps, made by
-- its batters and given by the opponents' pitchers.
pub record Counted (side : GameSide) (steps : List EffectiveReplayStep)
    (teams : Sides TeamStatistics) : Type 0 where
  pub runs_made : (at_side teams side).batting.counters.runs ≡ total_runs side steps
  pub hits_made : (at_side teams side).batting.counters.hits ≡ total_hits side steps
  pub runs_given :
      (at_side teams (opposite side)).pitching.counters.runs_allowed ≡ total_runs side steps
  pub hits_given :
      (at_side teams (opposite side)).pitching.counters.hits_allowed ≡ total_hits side steps

pub teams-Counted :
    (setup : AcceptedSetup) (steps : List EffectiveReplayStep) (index : Dict ℕ GameSide)
    (t : Tallies) (lines : Lines) (teams : Sides TeamStatistics) (side : GameSide)
    → tally_steps index setup steps nothing_tallied ≡ ok t
    → all_lines index t ≡ ok lines
    → ((asked : GameSide) → team_statistics asked lines ≡ ok (at_side teams asked))
    → Counted side steps teams
teams-Counted setup steps index t lines teams side tallied listed summed =
    let team = team_statistics-IsTeam side lines (at_side teams side) (summed side) in
    let rivals =
      team_statistics-IsTeam (opposite side) lines (at_side teams (opposite side))
        (summed (opposite side)) in
    let (batted, pitched) = sorted_parts index t lines listed in
    let p = tally_steps-Posted index setup side steps nothing_tallied t tallied in
    let team_runs =
      team_counters-total index side (λ (c : BattingCounters). c.runs) refl (λ a b. refl)
        derive_batting_rates t.batting lines.batting_lines batted in
    let team_hits =
      team_counters-total index side (λ (c : BattingCounters). c.hits) refl (λ a b. refl)
        derive_batting_rates t.batting lines.batting_lines batted in
    let rival_runs =
      team_counters-total index (opposite side) (λ (c : PitchingCounters). c.runs_allowed) refl
        (λ a b. refl) derive_pitching_rates t.pitching lines.pitching_lines pitched in
    let rival_hits =
      team_counters-total index (opposite side) (λ (c : PitchingCounters). c.hits_allowed) refl
        (λ a b. refl) derive_pitching_rates t.pitching lines.pitching_lines pitched in
    let batters = team.batters in
    let pitchers = rivals.pitchers in
    record {
      runs_made = ap (λ (c : BattingCounters). c.runs) batters ∙ team_runs ∙ omega arith;
      hits_made = ap (λ (c : BattingCounters). c.hits) batters ∙ team_hits ∙ omega arith;
      runs_given =
          ap (λ (c : PitchingCounters). c.runs_allowed) pitchers ∙ rival_runs ∙ omega arith;
      hits_given =
          ap (λ (c : PitchingCounters). c.hits_allowed) pitchers ∙ rival_hits ∙ omega arith;
    }
