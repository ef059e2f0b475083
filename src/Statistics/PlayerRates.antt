-- ===== src/Statistics/PlayerRates.antt =====
-- The rates that counters have, src/domain/statistics/game-statistics.ts.
use baseballstattrack.Common.{
  ℕ, ◌+◌, ◌*◌, Bool, not, ◌||◌, Option, all, ltb, ◌==◌, nat_eq, Result, ok, reject, ◌>>=◌, ◌>>◌,
  StatisticErrorCode,
}
use baseballstattrack.Statistics.Rates.{ExactRate, is_safe, exact_rate, add_exact_rates}
use baseballstattrack.Statistics.Counters.{
  BattingCounters, PitchingCounters, FieldingCounters, Tally, batting_tally, pitching_tally,
  fielding_tally,
}

pub record BattingRates : Type 0 where
  pub batting_average : Option ExactRate
  pub on_base_percentage : Option ExactRate
  pub slugging_percentage : Option ExactRate
  pub on_base_plus_slugging : Option ExactRate

pub record PitchingRates : Type 0 where
  pub earned_run_average : Option ExactRate
  pub walks_and_hits_per_inning_pitched : Option ExactRate

pub record FieldingRates : Type 0 where
  pub chances : ℕ
  pub fielding_percentage : Option ExactRate

-- `validateCounters`
abbrev pub validate_counters : {C : Type 0} ⦃t : Tally C⦄ → C → Result (Unit {0})
validate_counters ⦃t⦄ c =
    reject (not (all is_safe (t.entries c))) StatisticErrorCode.impossible_counter_state

abbrev pub hit_components : BattingCounters → ℕ
hit_components c = c.singles + c.doubles + c.triples + c.home_runs

abbrev pub expected_total_bases : BattingCounters → ℕ
expected_total_bases c = c.singles + c.doubles * 2 + c.triples * 3 + c.home_runs * 4

abbrev pub minimum_plate_appearances : BattingCounters → ℕ
minimum_plate_appearances c =
    c.at_bats + c.walks + c.hit_by_pitch + c.sacrifice_flies + c.sacrifice_hits

abbrev pub batting_impossible : BattingCounters → Bool
batting_impossible c =
    not (c.hits == hit_components c)
    || not (c.total_bases == expected_total_bases c)
    || ltb c.at_bats c.hits
    || ltb c.walks c.intentional_walks
    || ltb c.at_bats c.strikeouts
    || ltb c.at_bats (c.reached_on_error + c.fielders_choices)
    || ltb c.plate_appearances (minimum_plate_appearances c)

unfoldable pub derive_batting_rates : BattingCounters → Result BattingRates
derive_batting_rates c = do
  validate_counters c
  reject (batting_impossible c) StatisticErrorCode.impossible_counter_state
  on_base ←
      exact_rate (c.hits + c.walks + c.hit_by_pitch)
        (c.at_bats + c.walks + c.hit_by_pitch + c.sacrifice_flies)
  slugging ← exact_rate c.total_bases c.at_bats
  average ← exact_rate c.hits c.at_bats
  both ← add_exact_rates on_base slugging
  ok (record {
    batting_average = average;
    on_base_percentage = on_base;
    slugging_percentage = slugging;
    on_base_plus_slugging = both;
  })

abbrev pub pitching_impossible : PitchingCounters → Bool
pitching_impossible c =
    ltb c.runs_allowed c.earned_runs
    || ltb c.hits_allowed c.home_runs_allowed
    || ltb c.inherited_runners c.inherited_runners_scored
    || ltb c.appearances c.games_started

unfoldable pub derive_pitching_rates : PitchingCounters → Result PitchingRates
derive_pitching_rates c = do
  validate_counters c
  reject (pitching_impossible c) StatisticErrorCode.impossible_counter_state
  earned ← exact_rate (c.earned_runs * 27) c.outs_recorded
  whip ← exact_rate ((c.walks + c.hits_allowed) * 3) c.outs_recorded
  ok (record { earned_run_average = earned; walks_and_hits_per_inning_pitched = whip })

unfoldable pub derive_fielding_rates : FieldingCounters → Result FieldingRates
derive_fielding_rates c =
    let chances = c.putouts + c.assists + c.errors in
    do
      validate_counters c
      percentage ← exact_rate (c.putouts + c.assists) chances
      ok (record { chances = chances; fielding_percentage = percentage })
