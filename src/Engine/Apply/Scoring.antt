-- ===== src/Engine/Apply/Scoring.antt =====
-- The scoring plays as `applyBody` dispatches them.
use baseballstattrack.Common.{
  ◌+◌, ◌≤◌, ◌≡◌, ap, ◌∙◌, Bool, true, false, List, [], ◌∷◌, length, nat_eq, ok, EventErrorCode,
  arith,
}
use baseballstattrack.Events.Equality.{
  side_eq, position_eq, base_eq, origin_eq, cause_eq, outcome_eq, credit_eq, play_type_eq,
  policy_eq, status_eq, destination_eq,
}
use baseballstattrack.Events.State.{GameState}
use baseballstattrack.Events.Bodies.{
  RunnerMovement, PlayBody, plate_appearance_recorded, runner_advance_recorded, runner_out_recorded,
  stolen_base_attempt_recorded, runner_play_recorded, defensive_substitution_made,
  defensive_alignment_changed, pitching_change_made,
}
use baseballstattrack.Common.{guard-eq-ok}
use baseballstattrack.Engine.Innings.Outs.{finished, finish_outs-eq-ok}
use baseballstattrack.Engine.Movement.{write_movements, out_movements}
use baseballstattrack.Engine.Movement.Effects.{
  Moved, apply_movements-Moved, write_movements-SameFrame,
}
use baseballstattrack.Engine.Plays.{
  record_runner_advance, record_runner_out, record_stolen_base_attempt, record_runner_play,
  runner_out_movement, steal_movement,
}
use baseballstattrack.Engine.Plays.Resolution.{
  Resolved, advanced_if, require_live-status, move_and_count-Resolved, plate_appearance-Resolved,
}
use baseballstattrack.Engine.Apply.{apply_play}

-- The movements of a play, and whether it ends the batter's turn.
abbrev pub play_movements : GameState → PlayBody → List RunnerMovement
play_movements state (plate_appearance_recorded p) = p.movements
play_movements state (runner_advance_recorded m) = m ∷ []
play_movements state (runner_out_recorded o) = runner_out_movement o ∷ []
play_movements state (stolen_base_attempt_recorded s) = steal_movement state s ∷ []
play_movements state (runner_play_recorded p) = p.movements
play_movements state _ = []

abbrev pub is_scoring : PlayBody → Bool
is_scoring (defensive_substitution_made _) = false
is_scoring (defensive_alignment_changed _) = false
is_scoring (pitching_change_made _) = false
is_scoring _ = true

abbrev pub ends_turn : PlayBody → Bool
ends_turn (plate_appearance_recorded _) = true
ends_turn _ = false

pub apply_play-Resolved :
    (state : GameState) (p : PlayBody) {next : GameState}
    → is_scoring p ≡ true
    → apply_play state p ≡ ok next
    → Resolved state (ends_turn p) (play_movements state p) next
unfolding apply_play record_runner_advance record_runner_out record_stolen_base_attempt
    record_runner_play
apply_play-Resolved state (plate_appearance_recorded p) s h = plate_appearance-Resolved state p h
apply_play-Resolved state (runner_advance_recorded m) s h =
    let (live, rest) = require_live-status state _ h in
    move_and_count-Resolved state (m ∷ []) live
      (guard-eq-ok _ EventErrorCode.invalid_runner_movement _ rest).1
apply_play-Resolved state (runner_out_recorded o) s h =
    let (live, rest) = require_live-status state _ h in
    move_and_count-Resolved state (runner_out_movement o ∷ []) live rest
apply_play-Resolved state (stolen_base_attempt_recorded a) s h =
    let (live, rest) = require_live-status state _ h in
    move_and_count-Resolved state (steal_movement state a ∷ []) live rest
apply_play-Resolved state (runner_play_recorded p) s h =
    let (live, rest) = require_live-status state _ h in
    let (_, rest') = guard-eq-ok _ EventErrorCode.invalid_lineup _ rest in
    move_and_count-Resolved state p.movements live
      (guard-eq-ok _ EventErrorCode.invalid_lineup _ rest').1
apply_play-Resolved state (defensive_substitution_made _) s h = cc
apply_play-Resolved state (defensive_alignment_changed _) s h = cc
apply_play-Resolved state (pitching_change_made _) s h = cc

-- The state after a scoring play, in terms of the writes.
unfoldable pub resolved : Bool → GameState → List RunnerMovement → GameState
resolved turn state ms =
    finished (advanced_if turn (write_movements state ms)) (length (out_movements ms))

pub advanced_if-fields :
    (turn : Bool) (state : GameState)
    → ((advanced_if turn state).outs ≡ state.outs)
      × ((advanced_if turn state).score ≡ state.score)
      × ((advanced_if turn state).half ≡ state.half)
advanced_if-fields turn state = ground arith

pub Resolved-next :
    (state : GameState) (turn : Bool) (ms : List RunnerMovement) (next : GameState)
    → Resolved state turn ms next
    → Moved state ms (write_movements state ms) (length (out_movements ms))
      × (state.outs + length (out_movements ms) ≤ 3)
      × (next ≡ resolved turn state ms)
unfolding resolved
Resolved-next state turn ms next r =
    let m = apply_movements-Moved state ms r.applied in
    let (bound, e) = finish_outs-eq-ok (advanced_if turn r.moved) r.outs r.finishing in
    (
      rw (m.written, m.counted) at m,
      omega (
        arith,
        ap (λ (s : GameState). s.outs) m.written,
        m.counted,
        (write_movements-SameFrame state ms).outs,
        (advanced_if-fields turn r.moved).0,
      ),
      e
          ∙ ap (λ s. finished (advanced_if turn s) r.outs) m.written
          ∙ ap (finished (advanced_if turn (write_movements state ms))) m.counted,
    )
