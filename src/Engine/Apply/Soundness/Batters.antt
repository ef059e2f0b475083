-- ===== src/Engine/Apply/Soundness/Batters.antt =====
-- The movements from the plate are of a batter who stands on no base.
use baseballstattrack.Common.{
  ℕ, ◌≡◌, refl, inl, inr, Bool, true, false, not, ◌||◌, some, List, [], ◌∷◌, filter, any, all, ◌==◌,
  nat_eq, Result, ok, ◌>>◌, arith,
}
use baseballstattrack.Events.Enums.{RunnerOrigin}
use baseballstattrack.Events.Equality.{
  side_eq, position_eq, base_eq, origin_eq, cause_eq, outcome_eq, credit_eq, play_type_eq,
  policy_eq, status_eq, destination_eq,
}
use baseballstattrack.Events.State.{Bases, GameState}
use baseballstattrack.Events.Bodies.{
  RunnerMovement, PlateAppearance, StolenBaseAttempt, RunnerPlay, PlayBody,
  plate_appearance_recorded, runner_advance_recorded, runner_out_recorded,
  stolen_base_attempt_recorded, runner_play_recorded, defensive_substitution_made,
  defensive_alignment_changed, pitching_change_made,
}
use baseballstattrack.Common.{Result-cases}
use baseballstattrack.Events.Schema.{runner_play_valid, expected_cause}
use baseballstattrack.Engine.Movement.Placement.{movement_of}
use baseballstattrack.Engine.Movement.Integrity.{BattersOffBase, movement_of-runner}
use baseballstattrack.Engine.Plays.{
  batter_movement, is_from_plate, single_batter, check_plate_appearance, record_plate_appearance,
  record_runner_advance, runner_out_movement, steal_movement,
}
use baseballstattrack.Engine.Roster.Runners.{OffBase}
use baseballstattrack.Engine.Apply.{apply_play}
use baseballstattrack.Engine.Apply.Scoring.{play_movements, is_scoring}

-- The batter of a plate appearance, whatever becomes of him, and the incoming player of a defensive
-- substitution stand on no base; and a runner play passes the checks of its schema.
abbrev pub EntersOffBase : Bases → PlayBody → Type 0
EntersOffBase bases (plate_appearance_recorded p) = OffBase bases p.batter_id
EntersOffBase bases (runner_play_recorded p) = runner_play_valid p ≡ true
EntersOffBase bases (defensive_substitution_made s) = OffBase bases s.incoming_player_id
EntersOffBase bases _ = Unit

-- Every movement from the plate is the batter's.
abbrev batter_is : ℕ → RunnerMovement → Bool
batter_is batter_id m = not (is_from_plate m) || m.runner_id == batter_id

all-filter :
    (batter_id : ℕ) (ms : List RunnerMovement)
    → all (λ m. m.runner_id == batter_id) (filter is_from_plate ms) ≡ true
    → all (batter_is batter_id) ms ≡ true
all-filter b [] h = refl
all-filter b (m ∷ ms) h = ground (arith, all-filter b ms)

all-movement_of :
    (p : RunnerMovement → Bool) (r : ℕ) (ms : List RunnerMovement) (m : RunnerMovement)
    → all p ms ≡ true
    → movement_of r ms ≡ some m
    → p m ≡ true
all-movement_of p r [] m h e = cc
all-movement_of p r (n ∷ ms) m h e = ground (arith, all-movement_of p r ms m)

batters-BattersOffBase :
    (bases : Bases) (batter_id : ℕ) (ms : List RunnerMovement)
    → all (batter_is batter_id) ms ≡ true
    → OffBase bases batter_id
    → BattersOffBase bases ms
batters-BattersOffBase bases batter_id ms h off b r m e f =
    ground
      (arith, all-movement_of (batter_is batter_id) r ms m h e, movement_of-runner r ms m e, off b)

no_batters-BattersOffBase :
    (bases : Bases) (ms : List RunnerMovement)
    → all (λ m. not (is_from_plate m)) ms ≡ true
    → BattersOffBase bases ms
no_batters-BattersOffBase bases ms h b r m e f =
    absurd (ground (arith, all-movement_of (λ m. not (is_from_plate m)) r ms m h e))

single_batter-all :
    (batter_id : ℕ) (ms : List RunnerMovement) {m : RunnerMovement}
    → single_batter batter_id ms ≡ ok m
    → all (λ m. m.runner_id == batter_id) ms ≡ true
single_batter-all batter_id [] h = refl
single_batter-all batter_id (m ∷ []) h = ground arith
single_batter-all batter_id (m ∷ n ∷ ms) h = cc

batter_movement-batters :
    (p : PlateAppearance) (m : RunnerMovement)
    → batter_movement p ≡ ok m
    → all (batter_is p.batter_id) p.movements ≡ true
unfolding batter_movement
batter_movement-batters p m h =
    all-filter p.batter_id p.movements
      (single_batter-all p.batter_id (filter is_from_plate p.movements) h)

check_plate_appearance-batters :
    (state : GameState) (p : PlateAppearance) (k : Result GameState) (next : GameState)
    → (check_plate_appearance state p >> k) ≡ ok next
    → all (batter_is p.batter_id) p.movements ≡ true
unfolding check_plate_appearance
check_plate_appearance-batters state p k next h = elim (Result-cases (batter_movement p)) [
  | inl (m, e) ↦ batter_movement-batters p m e
  | inr (f, e) ↦ absurd (ground arith)
]

runner_play_valid-batters :
    (p : RunnerPlay)
    → runner_play_valid p ≡ true
    → all (λ m. not (is_from_plate m)) p.movements ≡ true
unfolding runner_play_valid
runner_play_valid-batters p h = any-none p.movements (ground arith)
  where
    any-none :
        (ms : List RunnerMovement)
        → any (λ m. m.from == RunnerOrigin.batter || not (m.cause == expected_cause p.play_type)) ms
          ≡ false
        → all (λ m. not (is_from_plate m)) ms ≡ true
    any-none [] h = refl
    any-none (m ∷ ms) h = ground (arith, any-none ms)

advance-batters :
    (state : GameState) (m : RunnerMovement) (next : GameState)
    → record_runner_advance state m ≡ ok next
    → all (λ m. not (is_from_plate m)) (m ∷ []) ≡ true
unfolding record_runner_advance
advance-batters state m next h = ground arith

steal-batters :
    (state : GameState) (a : StolenBaseAttempt)
    → all (λ m. not (is_from_plate m)) (steal_movement state a ∷ []) ≡ true
unfolding steal_movement
steal-batters state a = ground arith

pub enters-BattersOffBase :
    (state : GameState) (p : PlayBody) (next : GameState)
    → is_scoring p ≡ true
    → apply_play state p ≡ ok next
    → EntersOffBase state.bases p
    → BattersOffBase state.bases (play_movements state p)
unfolding apply_play record_plate_appearance
enters-BattersOffBase state (plate_appearance_recorded p) next s h off =
    batters-BattersOffBase state.bases p.batter_id p.movements
      (check_plate_appearance-batters state p _ next h) off
enters-BattersOffBase state (runner_advance_recorded m) next s h off =
    no_batters-BattersOffBase state.bases (m ∷ []) (advance-batters state m next h)
enters-BattersOffBase state (runner_out_recorded o) next s h off =
    no_batters-BattersOffBase state.bases (runner_out_movement o ∷ []) (ground arith)
enters-BattersOffBase state (stolen_base_attempt_recorded a) next s h off =
    no_batters-BattersOffBase state.bases (steal_movement state a ∷ []) (steal-batters state a)
enters-BattersOffBase state (runner_play_recorded p) next s h off =
    no_batters-BattersOffBase state.bases p.movements (runner_play_valid-batters p off)
enters-BattersOffBase state (defensive_substitution_made _) next s h off = cc
enters-BattersOffBase state (defensive_alignment_changed _) next s h off = cc
enters-BattersOffBase state (pitching_change_made _) next s h off = cc
