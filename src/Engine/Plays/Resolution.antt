-- ===== src/Engine/Plays/Resolution.antt =====
-- Every scoring play moves runners once and then counts its outs.
use baseballstattrack.Common.{
  ℕ, ◌≡◌, Bool, true, false, List, if◌then◌else◌, nat_eq, Result, ok, ◌>>◌, arith,
}
use baseballstattrack.Events.Enums.{in_progress}
use baseballstattrack.Events.Equality.{
  side_eq, position_eq, base_eq, origin_eq, cause_eq, outcome_eq, credit_eq, play_type_eq,
  policy_eq, status_eq, destination_eq,
}
use baseballstattrack.Events.State.{GameState}
use baseballstattrack.Events.Bodies.{RunnerMovement, PlateAppearance}
use baseballstattrack.Common.{>>=-eq-ok}
use baseballstattrack.Events.Equality.{status_beq_iff}
use baseballstattrack.Engine.Innings.{batting_side, require_live, finish_outs}
use baseballstattrack.Engine.Movement.{apply_movements}
use baseballstattrack.Engine.Plays.{
  advance_order, check_plate_appearance, record_plate_appearance, move_and_count,
}

-- Only a plate appearance brings up the next batter.
abbrev pub advanced_if : Bool → GameState → GameState
advanced_if turn state = if turn then advance_order (batting_side state) state else state

pub record Resolved (state : GameState) (turn : Bool) (ms : List RunnerMovement) (next : GameState)
    : Type 0 where
  pub moved : GameState
  pub outs : ℕ
  pub live : state.status ≡ in_progress
  pub applied : apply_movements state ms ≡ ok (moved, outs)
  pub finishing : finish_outs (advanced_if turn moved) outs ≡ ok next

pub require_live-status :
    (state : GameState) {A : Type 0} (k : Result A) {a : A}
    → (require_live state >> k) ≡ ok a
    → (state.status ≡ in_progress) × (k ≡ ok a)
unfolding require_live
require_live-status state k h = ground (arith, status_beq_iff state.status in_progress)

pub move_and_count-Resolved :
    (state : GameState) (ms : List RunnerMovement) {next : GameState}
    → state.status ≡ in_progress
    → move_and_count state ms ≡ ok next
    → Resolved state false ms next
unfolding move_and_count
move_and_count-Resolved state ms live h =
    let ((moved, outs), applied, finishing) =
      >>=-eq-ok (apply_movements state ms) (λ r. finish_outs r.0 r.1) h in
    record { moved = moved; outs = outs; live = live; applied = applied; finishing = finishing }

check_plate_appearance-live :
    (state : GameState) (p : PlateAppearance) {k : Result GameState} {next : GameState}
    → (check_plate_appearance state p >> k) ≡ ok next
    → (state.status ≡ in_progress) × (k ≡ ok next)
unfolding check_plate_appearance require_live
check_plate_appearance-live state p h = ground (arith, status_beq_iff state.status in_progress)

pub plate_appearance-Resolved :
    (state : GameState) (p : PlateAppearance) {next : GameState}
    → record_plate_appearance state p ≡ ok next
    → Resolved state true p.movements next
unfolding record_plate_appearance
plate_appearance-Resolved state p h =
    let (live, rest) = check_plate_appearance-live state p h in
    let ((moved, outs), applied, finishing) =
      >>=-eq-ok (apply_movements state p.movements)
        (λ r. finish_outs (advance_order (batting_side r.0) r.0) r.1) rest in
    record { moved = moved; outs = outs; live = live; applied = applied; finishing = finishing }
