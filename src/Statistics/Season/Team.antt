-- ===== src/Statistics/Season/Team.antt =====
-- The team of a season, from its games.
use baseballstattrack.Common.{
  ℕ, ◌+◌, ◌≡◌, ◌∙◌, ◌||◌, List, [], filter, ◌==◌, nat_eq, Result, ok, reject, StatisticErrorCode,
  >>=-eq-ok, >>-eq-ok, ok-injective,
}
use baseballstattrack.Statistics.Counters.{
  BattingCounters, PitchingCounters, FieldingCounters, Tally, batting_tally, pitching_tally,
  fielding_tally,
}
use baseballstattrack.Statistics.PlayerRates.{
  derive_batting_rates, derive_pitching_rates, derive_fielding_rates,
}
use baseballstattrack.Statistics.Derive.{PlayerLine, TeamLine, GameStatisticsProjection}
use baseballstattrack.Statistics.Season.{
  SeasonStatisticsInput, SeasonLine, SeasonStatisticsProjection, aggregate_players, season_team,
  check_games, included_games, game_id_of, is_included, selected_lines, batting_of, pitching_of,
  fielding_of, derive_season_statistics,
}
use baseballstattrack.Statistics.Season.Totals.{
  sum_of, sum_of-sort_by, of_game, aggregate_players-sum, season_team-sum, selected_lines-sum,
}

-- What a derivation of a season has computed.
record Derived (input : SeasonStatisticsInput) (p : SeasonStatisticsProjection) : Type 0 where
  batters :
      aggregate_players derive_batting_rates (selected_lines batting_of (included_games input))
      ≡ ok p.batting
  pitchers :
      aggregate_players derive_pitching_rates (selected_lines pitching_of (included_games input))
      ≡ ok p.pitching
  fielders :
      aggregate_players derive_fielding_rates (selected_lines fielding_of (included_games input))
      ≡ ok p.fielding
  team_batting : season_team derive_batting_rates p.batting ≡ ok p.team.batting
  team_pitching : season_team derive_pitching_rates p.pitching ≡ ok p.team.pitching
  team_fielding : season_team derive_fielding_rates p.fielding ≡ ok p.team.fielding

derive_season_statistics-Derived :
    (input : SeasonStatisticsInput) (p : SeasonStatisticsProjection)
    → derive_season_statistics input ≡ ok p
    → Derived input p
unfolding derive_season_statistics
derive_season_statistics-Derived input p e =
    let games = included_games input in
    let k0 = >>-eq-ok (check_games input [] input.games) _ (
      >>-eq-ok
        (reject (input.account_id == 0 || input.season_id == 0 || input.team_id == 0)
          StatisticErrorCode.missing_attribution)
        _ e) in
    let (batting, one, k1) =
      >>=-eq-ok (aggregate_players derive_batting_rates (selected_lines batting_of games)) _ k0 in
    let (pitching, two, k2) =
      >>=-eq-ok (aggregate_players derive_pitching_rates (selected_lines pitching_of games)) _ k1 in
    let (fielding, three, k3) =
      >>=-eq-ok (aggregate_players derive_fielding_rates (selected_lines fielding_of games)) _ k2 in
    let (team_batting, four, k4) = >>=-eq-ok (season_team derive_batting_rates batting) _ k3 in
    let (team_pitching, five, k5) = >>=-eq-ok (season_team derive_pitching_rates pitching) _ k4 in
    let (team_fielding, six, done) = >>=-eq-ok (season_team derive_fielding_rates fielding) _ k5 in
    rw (← ok-injective _ p done) (record {
      batters = one;
      pitchers = two;
      fielders = three;
      team_batting = four;
      team_pitching = five;
      team_fielding = six;
    })

module _ {C R : Type 0} ⦃t : Tally C⦄ (f : C → ℕ) (starts : f t.zero_counters ≡ 0)
    (adds : (a b : C) → f (t.add a b) ≡ f a + f b) (derive : C → Result R) where
  team-sum :
      (lines_of : GameStatisticsProjection → List (PlayerLine C R)) (input : SeasonStatisticsInput)
      (lines : List (SeasonLine C R)) (team : TeamLine C R)
      → aggregate_players derive (selected_lines lines_of (included_games input)) ≡ ok lines
      → season_team derive lines ≡ ok team
      → f team.counters
        ≡ sum_of (of_game f lines_of) (filter (is_included input.include_unverified) input.games)
  team-sum lines_of input lines team aggregated teamed =
      let chosen = filter (is_included input.include_unverified) input.games in
      season_team-sum f starts adds derive lines team teamed
      ∙ aggregate_players-sum f starts adds derive (selected_lines lines_of (included_games input))
          lines aggregated
      ∙ selected_lines-sum f starts adds derive lines_of (included_games input)
      ∙ sum_of-sort_by (of_game f lines_of) game_id_of chosen

-- The team's counters of a derived season are the sums, over the games that are included, of those
-- of the selected side of the game: every function of the counters that starts at zero and is additive
-- is on the season's total the sum of its values on the games, for batting, pitching and fielding.
pub derive_season_statistics-sums :
    (f : BattingCounters → ℕ) (g : PitchingCounters → ℕ) (h : FieldingCounters → ℕ)
    → (f batting_tally.zero_counters ≡ 0)
    → (g pitching_tally.zero_counters ≡ 0)
    → (h fielding_tally.zero_counters ≡ 0)
    → ((a b : BattingCounters) → f (batting_tally.add a b) ≡ f a + f b)
    → ((a b : PitchingCounters) → g (pitching_tally.add a b) ≡ g a + g b)
    → ((a b : FieldingCounters) → h (fielding_tally.add a b) ≡ h a + h b)
    → (input : SeasonStatisticsInput) (p : SeasonStatisticsProjection)
    → derive_season_statistics input ≡ ok p
    → (f p.team.batting.counters
        ≡ sum_of (of_game f batting_of) (filter (is_included input.include_unverified) input.games))
      × (g p.team.pitching.counters
          ≡ sum_of
              (of_game g pitching_of)
              (filter (is_included input.include_unverified) input.games))
      × (h p.team.fielding.counters
          ≡ sum_of
              (of_game h fielding_of)
              (filter (is_included input.include_unverified) input.games))
derive_season_statistics-sums f g h f_zero g_zero h_zero f_add g_add h_add input p e =
    let d = derive_season_statistics-Derived input p e in
    (
      team-sum f f_zero f_add derive_batting_rates batting_of input p.batting p.team.batting
          d.batters d.team_batting,
      team-sum g g_zero g_add derive_pitching_rates pitching_of input p.pitching p.team.pitching
          d.pitchers d.team_pitching,
      team-sum h h_zero h_add derive_fielding_rates fielding_of input p.fielding p.team.fielding
          d.fielders d.team_fielding,
    )
