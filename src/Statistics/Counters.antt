-- ===== src/Statistics/Counters.antt =====
-- The counters of src/domain/statistics/game-statistics.ts and the rates derived from them.
use baseballstattrack.Common.{ℕ, ◌+◌, List, [], ◌∷◌, nat_eq}

pub record BattingCounters : Type 0 where
  pub plate_appearances : ℕ
  pub at_bats : ℕ
  pub runs : ℕ
  pub hits : ℕ
  pub singles : ℕ
  pub doubles : ℕ
  pub triples : ℕ
  pub home_runs : ℕ
  pub runs_batted_in : ℕ
  pub walks : ℕ
  pub intentional_walks : ℕ
  pub hit_by_pitch : ℕ
  pub strikeouts : ℕ
  pub sacrifice_flies : ℕ
  pub sacrifice_hits : ℕ
  pub reached_on_error : ℕ
  pub fielders_choices : ℕ
  pub total_bases : ℕ
  pub stolen_bases : ℕ
  pub caught_stealing : ℕ

pub record PitchingCounters : Type 0 where
  pub appearances : ℕ
  pub games_started : ℕ
  pub batters_faced : ℕ
  pub outs_recorded : ℕ
  pub hits_allowed : ℕ
  pub runs_allowed : ℕ
  pub earned_runs : ℕ
  pub walks : ℕ
  pub strikeouts : ℕ
  pub hit_batters : ℕ
  pub home_runs_allowed : ℕ
  pub inherited_runners : ℕ
  pub inherited_runners_scored : ℕ

pub record FieldingCounters : Type 0 where
  pub putouts : ℕ
  pub assists : ℕ
  pub errors : ℕ
  pub double_plays : ℕ
  pub triple_plays : ℕ

-- Counters that are summed key by key, from zero: `sumCounters`, and `add` over `empty` in
-- season-statistics.ts.
pub record Tally (C : Type 0) : Type 0 where
  pub zero_counters : C
  pub add : C → C → C
  pub entries : C → List ℕ

instance abbrev pub batting_tally : Tally BattingCounters
batting_tally = record {
  zero_counters = record {
    plate_appearances = 0;
    at_bats = 0;
    runs = 0;
    hits = 0;
    singles = 0;
    doubles = 0;
    triples = 0;
    home_runs = 0;
    runs_batted_in = 0;
    walks = 0;
    intentional_walks = 0;
    hit_by_pitch = 0;
    strikeouts = 0;
    sacrifice_flies = 0;
    sacrifice_hits = 0;
    reached_on_error = 0;
    fielders_choices = 0;
    total_bases = 0;
    stolen_bases = 0;
    caught_stealing = 0;
  };
  add = λ a b. record {
    plate_appearances = a.plate_appearances + b.plate_appearances;
    at_bats = a.at_bats + b.at_bats;
    runs = a.runs + b.runs;
    hits = a.hits + b.hits;
    singles = a.singles + b.singles;
    doubles = a.doubles + b.doubles;
    triples = a.triples + b.triples;
    home_runs = a.home_runs + b.home_runs;
    runs_batted_in = a.runs_batted_in + b.runs_batted_in;
    walks = a.walks + b.walks;
    intentional_walks = a.intentional_walks + b.intentional_walks;
    hit_by_pitch = a.hit_by_pitch + b.hit_by_pitch;
    strikeouts = a.strikeouts + b.strikeouts;
    sacrifice_flies = a.sacrifice_flies + b.sacrifice_flies;
    sacrifice_hits = a.sacrifice_hits + b.sacrifice_hits;
    reached_on_error = a.reached_on_error + b.reached_on_error;
    fielders_choices = a.fielders_choices + b.fielders_choices;
    total_bases = a.total_bases + b.total_bases;
    stolen_bases = a.stolen_bases + b.stolen_bases;
    caught_stealing = a.caught_stealing + b.caught_stealing;
  };
  entries = λ c.
      c.plate_appearances ∷ c.at_bats ∷ c.runs ∷ c.hits ∷ c.singles ∷ c.doubles ∷ c.triples
      ∷ c.home_runs ∷ c.runs_batted_in ∷ c.walks ∷ c.intentional_walks ∷ c.hit_by_pitch
      ∷ c.strikeouts ∷ c.sacrifice_flies ∷ c.sacrifice_hits ∷ c.reached_on_error
      ∷ c.fielders_choices ∷ c.total_bases ∷ c.stolen_bases ∷ c.caught_stealing ∷ [];
}

instance abbrev pub pitching_tally : Tally PitchingCounters
pitching_tally = record {
  zero_counters = record {
    appearances = 0;
    games_started = 0;
    batters_faced = 0;
    outs_recorded = 0;
    hits_allowed = 0;
    runs_allowed = 0;
    earned_runs = 0;
    walks = 0;
    strikeouts = 0;
    hit_batters = 0;
    home_runs_allowed = 0;
    inherited_runners = 0;
    inherited_runners_scored = 0;
  };
  add = λ a b. record {
    appearances = a.appearances + b.appearances;
    games_started = a.games_started + b.games_started;
    batters_faced = a.batters_faced + b.batters_faced;
    outs_recorded = a.outs_recorded + b.outs_recorded;
    hits_allowed = a.hits_allowed + b.hits_allowed;
    runs_allowed = a.runs_allowed + b.runs_allowed;
    earned_runs = a.earned_runs + b.earned_runs;
    walks = a.walks + b.walks;
    strikeouts = a.strikeouts + b.strikeouts;
    hit_batters = a.hit_batters + b.hit_batters;
    home_runs_allowed = a.home_runs_allowed + b.home_runs_allowed;
    inherited_runners = a.inherited_runners + b.inherited_runners;
    inherited_runners_scored = a.inherited_runners_scored + b.inherited_runners_scored;
  };
  entries = λ c.
      c.appearances ∷ c.games_started ∷ c.batters_faced ∷ c.outs_recorded ∷ c.hits_allowed
      ∷ c.runs_allowed ∷ c.earned_runs ∷ c.walks ∷ c.strikeouts ∷ c.hit_batters
      ∷ c.home_runs_allowed ∷ c.inherited_runners ∷ c.inherited_runners_scored ∷ [];
}

instance abbrev pub fielding_tally : Tally FieldingCounters
fielding_tally = record {
  zero_counters = record {
    putouts = 0;
    assists = 0;
    errors = 0;
    double_plays = 0;
    triple_plays = 0;
  };
  add = λ a b. record {
    putouts = a.putouts + b.putouts;
    assists = a.assists + b.assists;
    errors = a.errors + b.errors;
    double_plays = a.double_plays + b.double_plays;
    triple_plays = a.triple_plays + b.triple_plays;
  };
  entries = λ c. c.putouts ∷ c.assists ∷ c.errors ∷ c.double_plays ∷ c.triple_plays ∷ [];
}
