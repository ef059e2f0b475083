-- ===== src/Engine/Movement/Effects.antt =====
-- What a successful `applyMovements` has checked and written.
use baseballstattrack.Common.{ℕ, ◌≡◌, false, ◌&&◌, List, [], ◌∷◌, length, any, nat_eq, ok, arith}
use baseballstattrack.Events.Equality.{
  side_eq, position_eq, base_eq, origin_eq, cause_eq, outcome_eq, credit_eq, play_type_eq,
  policy_eq, status_eq, destination_eq,
}
use baseballstattrack.Events.State.{GameState}
use baseballstattrack.Events.Bodies.{RunnerMovement}
use baseballstattrack.Engine.Movement.{
  origins, out_movements, has_duplicates, forced_invalid, check_movements, destination_occupied,
  out_order_invalid, ends_by_force, run_scores, write_movements, runner_passed, apply_movements,
  move_runner, move_runners, clear_bases,
}

-- The checks that the movements have passed, and the result.
pub record Moved (state : GameState) (ms : List RunnerMovement) (next : GameState) (outs : ℕ)
    : Type 0 where
  pub no_duplicates : has_duplicates ms ≡ false
  pub forced_valid : any (forced_invalid ms) ms ≡ false
  pub checked : check_movements state ms ≡ ok tt
  pub unoccupied : destination_occupied state ms ≡ false
  pub outs_in_order : out_order_invalid state ms ≡ false
  pub no_forced_run : (ends_by_force ms && any run_scores ms) ≡ false
  pub not_passed : runner_passed state.bases ms (write_movements state ms).bases ≡ false
  pub written : next ≡ write_movements state ms
  pub counted : outs ≡ length (out_movements ms)

pub apply_movements-Moved :
    (state : GameState) (ms : List RunnerMovement) {next : GameState} {outs : ℕ}
    → apply_movements state ms ≡ ok (next, outs)
    → Moved state ms next outs
unfolding apply_movements
apply_movements-Moved state ms h = ground arith

-- Movements touch the score, the bases and the responsibilities alone.
pub record SameFrame (state next : GameState) : Type 0 where
  pub status : next.status ≡ state.status
  pub inning : next.inning ≡ state.inning
  pub half : next.half ≡ state.half
  pub outs : next.outs ≡ state.outs
  pub order : next.batting_order_index ≡ state.batting_order_index
  pub lineups : next.lineups ≡ state.lineups
  pub participated : next.participated_players ≡ state.participated_players
  pub defense : next.defense ≡ state.defense
  pub pitchers : next.active_pitcher ≡ state.active_pitcher
  pub revision : next.source_revision ≡ state.source_revision
  pub sequence : next.last_sequence ≡ state.last_sequence
  pub account : next.account_id ≡ state.account_id
  pub game : next.game_id ≡ state.game_id
  pub setup : next.setup_snapshot_id ≡ state.setup_snapshot_id
  pub setup_revision : next.setup_revision ≡ state.setup_revision
  pub rules : next.ruleset_version_id ≡ state.ruleset_version_id
  pub innings : next.scheduled_innings ≡ state.scheduled_innings

move_runner-SameFrame :
    (state : GameState) (m : RunnerMovement) → SameFrame state (move_runner state m)
unfolding move_runner
move_runner-SameFrame state m = ground arith

SameFrame-trans : {s t u : GameState} → SameFrame s t → SameFrame t u → SameFrame s u
SameFrame-trans h k = ground arith

pub move_runners-SameFrame :
    (state : GameState) (ms : List RunnerMovement) → SameFrame state (move_runners state ms)
unfolding move_runners
move_runners-SameFrame state [] = ground arith
move_runners-SameFrame state (m ∷ ms) =
    SameFrame-trans (move_runner-SameFrame state m)
      (move_runners-SameFrame (move_runner state m) ms)

pub write_movements-SameFrame :
    (state : GameState) (ms : List RunnerMovement) → SameFrame state (write_movements state ms)
unfolding write_movements
write_movements-SameFrame state ms = ground (
  arith,
  move_runners-SameFrame (record state { bases = clear_bases (origins ms) state.bases }) ms,
)
