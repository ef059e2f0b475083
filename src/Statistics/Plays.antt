-- ===== src/Statistics/Plays.antt =====
-- The cases of the loop of `deriveGameStatistics`, src/domain/statistics/game-statistics.ts.
use baseballstattrack.Common.{
  ℕ, ◌+◌, Bool, true, false, not, ◌||◌, Option, none, some, List, [], ◌∷◌, if◌then◌else◌, filter,
  ◌==◌, nat_eq, Dict, Result, ok, err, ◌>>=◌, ◌>>◌, underivable, StatisticErrorCode,
}
use baseballstattrack.Events.Enums.{GameSide, Outcome}
use baseballstattrack.Events.Equality.{outcome_eq, credit_eq, play_type_eq}
use baseballstattrack.Statistics.Counters.{BattingCounters, PitchingCounters}
use baseballstattrack.Statistics.Tally.{Tallies, require_player_side, credit_fielder, plus_if}

-- `new Set(xs)`, in the order of the first occurrences.
abbrev pub unique : List ℕ → List ℕ
unique [] = []
unique (x ∷ xs) = x ∷ filter (λ y. not (y == x)) (unique xs)

-- `xs.at(-1)` of `x ∷ xs`, and `xs.slice(0, -1)`.
abbrev pub last_of : ℕ → List ℕ → ℕ
last_of x [] = x
last_of x (y ∷ ys) = last_of y ys

abbrev pub but_last : ℕ → List ℕ → List ℕ
but_last x [] = []
but_last x (y ∷ ys) = x ∷ but_last y ys

abbrev pub has_no_at_bat : Outcome → Bool
has_no_at_bat Outcome.walk = true
has_no_at_bat Outcome.intentional_walk = true
has_no_at_bat Outcome.hit_by_pitch = true
has_no_at_bat Outcome.sacrifice_bunt = true
has_no_at_bat Outcome.sacrifice_fly = true
has_no_at_bat _ = false

-- The bases of a hit, none for another outcome.
abbrev pub hit_bases : Outcome → Option ℕ
hit_bases Outcome.single = some 1
hit_bases Outcome.double = some 2
hit_bases Outcome.triple = some 3
hit_bases Outcome.home_run = some 4
hit_bases _ = none

abbrev pub is_hit : Outcome → Bool
is_hit o = elim (hit_bases o) [ none ↦ false | some _ ↦ true ]

abbrev pub total_bases_of : Outcome → ℕ
total_bases_of o = elim (hit_bases o) [ none ↦ 0 | some n ↦ n ]

abbrev pub is_walk : Outcome → Bool
is_walk o = o == Outcome.walk || o == Outcome.intentional_walk

abbrev pub is_strikeout : Outcome → Bool
is_strikeout o = o == Outcome.strikeout_swinging || o == Outcome.strikeout_looking

-- `applyPlateOutcome`, of the batter.
unfoldable pub batter_outcome : Outcome → BattingCounters → BattingCounters
batter_outcome o c = record c {
  plate_appearances = c.plate_appearances + 1;
  at_bats = plus_if (not (has_no_at_bat o)) c.at_bats;
  hits = plus_if (is_hit o) c.hits;
  total_bases = c.total_bases + total_bases_of o;
  singles = plus_if (o == Outcome.single) c.singles;
  doubles = plus_if (o == Outcome.double) c.doubles;
  triples = plus_if (o == Outcome.triple) c.triples;
  home_runs = plus_if (o == Outcome.home_run) c.home_runs;
  walks = plus_if (is_walk o) c.walks;
  intentional_walks = plus_if (o == Outcome.intentional_walk) c.intentional_walks;
  hit_by_pitch = plus_if (o == Outcome.hit_by_pitch) c.hit_by_pitch;
  strikeouts = plus_if (is_strikeout o) c.strikeouts;
  sacrifice_flies = plus_if (o == Outcome.sacrifice_fly) c.sacrifice_flies;
  sacrifice_hits = plus_if (o == Outcome.sacrifice_bunt) c.sacrifice_hits;
  reached_on_error = plus_if (o == Outcome.reached_on_error) c.reached_on_error;
  fielders_choices = plus_if (o == Outcome.fielder_choice) c.fielders_choices;
}

-- `applyPlateOutcome`, of the pitcher.
unfoldable pub pitcher_outcome : Outcome → PitchingCounters → PitchingCounters
pitcher_outcome o c = record c {
  batters_faced = c.batters_faced + 1;
  hits_allowed = plus_if (is_hit o) c.hits_allowed;
  home_runs_allowed = plus_if (o == Outcome.home_run) c.home_runs_allowed;
  walks = plus_if (is_walk o) c.walks;
  hit_batters = plus_if (o == Outcome.hit_by_pitch) c.hit_batters;
  strikeouts = plus_if (is_strikeout o) c.strikeouts;
}

unfoldable pub require_players : Dict ℕ GameSide → GameSide → List ℕ → Result (Unit {0})
require_players index side [] = ok tt
require_players index side (player_id ∷ rest) =
    require_player_side index player_id side >> require_players index side rest

-- The assists of an out, one to each fielder before the one with the putout.
unfoldable pub credit_assists : Dict ℕ GameSide → GameSide → ℕ → List ℕ → Tallies → Result Tallies
credit_assists index side putout [] t = ok t
credit_assists index side putout (fielder_id ∷ rest) t = do
  next ←
      (if fielder_id == putout
        then ok t
        else credit_fielder index fielder_id side (λ c. record c { assists = c.assists + 1 }) t)
  credit_assists index side putout rest next

-- `creditOutPath`; it returns `unique fielders`.
unfoldable pub credit_out_path : Dict ℕ GameSide → List ℕ → GameSide → Tallies → Result Tallies
unfolding credit_assists require_players
credit_out_path index [] side t = err (underivable StatisticErrorCode.missing_attribution)
credit_out_path index (x ∷ xs) side t =
    let putout = last_of x xs in
    do
      require_players index side (unique (x ∷ xs))
      caught ← credit_fielder index putout side (λ c. record c { putouts = c.putouts + 1 }) t
      credit_assists index side putout (unique (but_last x xs)) caught
