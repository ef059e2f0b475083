-- ===== src/Engine/Movement/Runs.antt =====
-- The runs that a play scores.
use baseballstattrack.Common.{
  ℕ, ◌+◌, ◌≡◌, List, [], ◌∷◌, length, if◌then◌else◌, filter, ◌==◌, nat_eq, arith,
}
use baseballstattrack.Events.Enums.{GameSide}
use baseballstattrack.Events.Equality.{
  side_eq, position_eq, base_eq, origin_eq, cause_eq, outcome_eq, credit_eq, play_type_eq,
  policy_eq, status_eq, destination_eq,
}
use baseballstattrack.Events.State.{at_side, GameState}
use baseballstattrack.Events.Bodies.{RunnerMovement}
use baseballstattrack.Engine.Innings.{batting_side}
use baseballstattrack.Engine.Movement.{
  origins, run_scores, write_movements, move_runner, move_runners, clear_bases,
}

abbrev pub counted_runs : List RunnerMovement → ℕ
counted_runs ms = length (filter run_scores ms)

-- The runs of a side, out of those that the batting side scored.
abbrev pub credited : GameState → GameSide → ℕ → ℕ
credited state side runs = if side == batting_side state then runs else 0

batting_side-move_runner :
    (state : GameState) (m : RunnerMovement)
    → batting_side (move_runner state m) ≡ batting_side state
unfolding batting_side move_runner
batting_side-move_runner state m = ground arith

score-move_runner :
    (state : GameState) (m : RunnerMovement) (side : GameSide)
    → at_side (move_runner state m).score side
      ≡ at_side state.score side + credited state side (counted_runs (m ∷ []))
unfolding move_runner
score-move_runner state m side = ground (arith, batting_side state)

score-move_runners :
    (state : GameState) (ms : List RunnerMovement) (side : GameSide)
    → at_side (move_runners state ms).score side
      ≡ at_side state.score side + credited state side (counted_runs ms)
unfolding move_runners
score-move_runners state [] side = ground arith
score-move_runners state (m ∷ ms) side = ground (
  arith,
  score-move_runners (move_runner state m) ms side,
  score-move_runner state m side,
  batting_side-move_runner state m,
)

pub score-write_movements :
    (state : GameState) (ms : List RunnerMovement) (side : GameSide)
    → at_side (write_movements state ms).score side
      ≡ at_side state.score side + credited state side (counted_runs ms)
unfolding write_movements batting_side
score-write_movements state ms side =
    score-move_runners (record state { bases = clear_bases (origins ms) state.bases }) ms side
