-- ===== src/Statistics/Credits.antt =====
-- The credits of a play's runs and outs, src/domain/statistics/game-statistics.ts.
use baseballstattrack.Common.{
  ℕ, not, Option, none, some, List, [], ◌∷◌, ◌++◌, map, length, if◌then◌else◌, filter, ◌==◌, nat_eq,
  Dict, Result, ok, err, ◌>>=◌, type_error,
}
use baseballstattrack.Events.Enums.{GameSide, FieldingCreditKind}
use baseballstattrack.Events.Equality.{outcome_eq, credit_eq, play_type_eq}
use baseballstattrack.Events.Bodies.{RunnerMovement, FieldingCredit}
use baseballstattrack.Events.Schema.{is_error_credit}
use baseballstattrack.Engine.Replay.{EffectiveReplayStep}
use baseballstattrack.Statistics.Counters.{FieldingCounters}
use baseballstattrack.Statistics.Tally.{Tallies, credit_fielder, apply_counting_run, plus_if}
use baseballstattrack.Statistics.Plays.{unique, credit_out_path}

-- The counting runs of a play.
unfoldable pub credit_runs :
    Dict ℕ GameSide
    → EffectiveReplayStep
    → GameSide
    → Option ℕ
    → List RunnerMovement
    → Tallies
    → Result Tallies
unfolding apply_counting_run
credit_runs index step side batter [] t = ok t
credit_runs index step side batter (m ∷ ms) t = do
  next ← apply_counting_run index step m side batter t
  credit_runs index step side batter ms next

abbrev pub field_credit : FieldingCredit → FieldingCounters → FieldingCounters
field_credit credit c = record c {
  putouts = plus_if (credit.credit == FieldingCreditKind.putout) c.putouts;
  assists = plus_if (credit.credit == FieldingCreditKind.assist) c.assists;
  errors = plus_if (credit.credit == FieldingCreditKind.error) c.errors;
}

unfoldable pub credit_fielding :
    Dict ℕ GameSide → GameSide → List FieldingCredit → Tallies → Result Tallies
credit_fielding index side [] t = ok t
credit_fielding index side (credit ∷ rest) t = do
  next ← credit_fielder index credit.fielder_id side (field_credit credit) t
  credit_fielding index side rest next

-- `creditOutPath` of each out; reading `out!.fielders` fails without out details.
unfoldable pub credit_out_paths :
    Dict ℕ GameSide → GameSide → List RunnerMovement → Tallies → Result Tallies
credit_out_paths index side [] t = ok t
credit_out_paths index side (m ∷ ms) t = do
  next ← elim m.out_details [
    | none ↦ err type_error
    | some details ↦ credit_out_path index details.fielders side t
  ]
  credit_out_paths index side ms next

-- Explicit credits, or else the fielders of the outs.
unfoldable pub credit_defense :
    Dict ℕ GameSide
    → GameSide
    → List FieldingCredit
    → List RunnerMovement
    → Tallies
    → Result Tallies
unfolding credit_fielding credit_out_paths
credit_defense index side credits outs t =
    if length credits == 0
    then credit_out_paths index side outs t
    else credit_fielding index side credits t

abbrev pub out_fielders : RunnerMovement → List ℕ
out_fielders m = elim m.out_details [ none ↦ [] | some details ↦ details.fielders ]

abbrev pub all_out_fielders : List RunnerMovement → List ℕ
all_out_fielders [] = []
all_out_fielders (m ∷ ms) = out_fielders m ++ all_out_fielders ms

-- `participants`
abbrev pub participants : List FieldingCredit → List RunnerMovement → List ℕ
participants credits outs = unique (
    if length credits == 0
    then all_out_fielders outs
    else map (λ (c : FieldingCredit). c.fielder_id) (filter (λ c. not (is_error_credit c)) credits))

abbrev pub multiple_play : ℕ → FieldingCounters → FieldingCounters
multiple_play outs c = record c {
  double_plays = plus_if (outs == 2) c.double_plays;
  triple_plays = plus_if (outs == 3) c.triple_plays;
}

unfoldable pub credit_multiple_play :
    Dict ℕ GameSide → GameSide → ℕ → List ℕ → Tallies → Result Tallies
credit_multiple_play index side outs [] t = ok t
credit_multiple_play index side outs (player_id ∷ rest) t = do
  next ← credit_fielder index player_id side (multiple_play outs) t
  credit_multiple_play index side outs rest next
