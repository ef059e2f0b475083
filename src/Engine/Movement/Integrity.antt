-- ===== src/Engine/Movement/Integrity.antt =====
-- The runners stay told apart and charged to a pitcher through a play.
use baseballstattrack.Common.{
  ℕ, ◌≡◌, ◌≢◌, refl, ap, ◌∙◌, ◌⊎◌, inl, inr, true, false, none, some, List, [], ◌∷◌, if◌then◌else◌,
  is_some, nat_eq, contains, distinct, lookup, ok, arith, Option-cases,
}
use baseballstattrack.Events.Enums.{Base, RunnerOrigin, RunnerDestination}
use baseballstattrack.Events.Equality.{
  side_eq, position_eq, base_eq, origin_eq, cause_eq, outcome_eq, credit_eq, play_type_eq,
  policy_eq, status_eq, destination_eq,
}
use baseballstattrack.Events.State.{Bases, at_base, GameState}
use baseballstattrack.Events.Bodies.{RunnerMovement}
use baseballstattrack.Common.{beq_refl, eq_of_beq}
use baseballstattrack.Engine.Movement.{
  runner_ids, origins, destinations, check_movement, check_movements, write_movements, clear_bases,
}
use baseballstattrack.Engine.Movement.Placement.{
  arrival, movement_of, placed, charged, at_base-clear_bases, move_runners-base,
  move_runners-charge,
}

-- Nobody stands on two bases, and a pitcher is responsible for everybody on base.
pub record RunnersSound (state : GameState) : Type 0 where
  pub apart :
      (b c : Base) (r : ℕ) → at_base state.bases b ≡ some r → at_base state.bases c ≡ some r → b ≡ c
  pub tracked :
      (b : Base) (r : ℕ)
      → at_base state.bases b ≡ some r
      → is_some (lookup r state.runner_pitcher_responsibility) ≡ true

-- No movement brings up a batter who is on base already.
abbrev pub BattersOffBase : Bases → List RunnerMovement → Type 0
BattersOffBase bases ms =
    (b : Base) (r : ℕ) (m : RunnerMovement)
    → movement_of r ms ≡ some m
    → m.from ≡ RunnerOrigin.batter
    → at_base bases b ≢ some r

pub movement_of-runner :
    (r : ℕ) (ms : List RunnerMovement) (m : RunnerMovement)
    → movement_of r ms ≡ some m
    → m.runner_id ≡ r
movement_of-runner r [] m h = cc
movement_of-runner r (n ∷ ms) m h = ground (arith, movement_of-runner r ms m)

arrival-contains :
    (b : Base) (ms : List RunnerMovement) (m : RunnerMovement)
    → arrival b ms ≡ some m
    → contains (runner_ids ms) m.runner_id ≡ true
arrival-contains b [] m h = cc
arrival-contains b (n ∷ ms) m h = ground (arith, arrival-contains b ms m)

pub arrival-movement_of :
    (b : Base) (ms : List RunnerMovement) (m : RunnerMovement)
    → distinct (runner_ids ms) ≡ true
    → arrival b ms ≡ some m
    → movement_of m.runner_id ms ≡ some m
arrival-movement_of b [] m d h = cc
arrival-movement_of b (n ∷ ms) m d h =
    ground (arith, arrival-movement_of b ms m, arrival-contains b ms m)

pub arrival-to :
    (b : Base) (ms : List RunnerMovement) (m : RunnerMovement)
    → arrival b ms ≡ some m
    → m.to ≡ RunnerDestination.safe_at b
arrival-to b [] m h = cc
arrival-to b (n ∷ ms) m h =
    ground (arith, arrival-to b ms m, eq_of_beq n.to (RunnerDestination.safe_at b))

pub check_movement-origin :
    (state : GameState) (b : Base) (m : RunnerMovement)
    → check_movement state m ≡ ok tt
    → m.from ≡ RunnerOrigin.on b
    → at_base state.bases b ≡ some m.runner_id
unfolding check_movement
check_movement-origin state b m h f = ground arith

-- A runner who leaves a base stood there.
pub movement_of-origin :
    (state : GameState) (r : ℕ) (b : Base) (ms : List RunnerMovement) (m : RunnerMovement)
    → check_movements state ms ≡ ok tt
    → movement_of r ms ≡ some m
    → m.from ≡ RunnerOrigin.on b
    → (at_base state.bases b ≡ some r) × (contains (origins ms) b ≡ true)
unfolding check_movements
movement_of-origin state r b [] m c h f = cc
movement_of-origin state r b (n ∷ ms) m c h f =
    ground (arith, check_movement-origin state b n, movement_of-origin state r b ms m, beq_refl b)

-- After the writes of a play whose destinations differ, a base holds the runner who arrives on it;
-- if nobody arrives, nobody when its runner left, and otherwise whoever held it before.
pub write_movements-base :
    (state : GameState) (ms : List RunnerMovement) (b : Base)
    → distinct (destinations ms) ≡ true
    → at_base (write_movements state ms).bases b
      ≡ placed (if contains (origins ms) b then none else at_base state.bases b) (arrival b ms)
unfolding write_movements
write_movements-base state ms b h =
    move_runners-base (record state { bases = clear_bases (origins ms) state.bases }) ms b h
    ∙ ap (λ r. placed r (arrival b ms)) (at_base-clear_bases (origins ms) state.bases b)

pub write_movements-charge :
    (state : GameState) (ms : List RunnerMovement) (r : ℕ)
    → distinct (runner_ids ms) ≡ true
    → lookup r (write_movements state ms).runner_pitcher_responsibility
      ≡ charged (lookup r state.runner_pitcher_responsibility) (movement_of r ms)
unfolding write_movements
write_movements-charge state ms r h =
    move_runners-charge (record state { bases = clear_bases (origins ms) state.bases }) ms r h

module _ (state : GameState) (ms : List RunnerMovement) (sound : RunnersSound state)
    (runners : distinct (runner_ids ms) ≡ true) (targets : distinct (destinations ms) ≡ true)
    (checked : check_movements state ms ≡ ok tt) (off : BattersOffBase state.bases ms) where
  -- Whoever stays on a base that nobody reaches is moved by nothing.
  stays :
      (b : Base) (r : ℕ)
      → contains (origins ms) b ≡ false
      → at_base state.bases b ≡ some r
      → movement_of r ms ≡ none
  stays b r kept held = elim (Option-cases (movement_of r ms)) [
    | inl e ↦ e
    | inr (m, e) ↦ absurd (moved m e m.from refl)
  ]
    where
      moved : (m : RunnerMovement) → movement_of r ms ≡ some m → (o : RunnerOrigin) → m.from ≡ o → ⊥
      moved m e RunnerOrigin.batter f = off b r m e f held
      moved m e (RunnerOrigin.on c) f =
          let (there, left) = movement_of-origin state r c ms m checked e f in
          cc (sound.apart b c r held there, kept, left)

  -- Where a runner stands afterwards: he has come, or he has stayed.
  placement :
      (b : Base) (r : ℕ)
      → at_base (write_movements state ms).bases b ≡ some r
      → ((m : RunnerMovement) × (m.to ≡ RunnerDestination.safe_at b) × (movement_of r ms ≡ some m))
        ⊎ ((movement_of r ms ≡ none) × (at_base state.bases b ≡ some r))
  placement b r h = elim (Option-cases (arrival b ms)) [
    | inl e ↦ inr (ground (arith, write_movements-base state ms b targets, stays b r))
    | inr (m, e) ↦ inl (
      m,
      arrival-to b ms m e,
      ground (arith, write_movements-base state ms b targets, arrival-movement_of b ms m runners e),
    )
  ]

  write_movements-apart :
      (b c : Base) (r : ℕ)
      → at_base (write_movements state ms).bases b ≡ some r
      → at_base (write_movements state ms).bases c ≡ some r
      → b ≡ c
  write_movements-apart b c r hb hc =
      ground (arith, placement b r hb, placement c r hc, sound.apart b c r)

  write_movements-tracked :
      (b : Base) (r : ℕ)
      → at_base (write_movements state ms).bases b ≡ some r
      → is_some (lookup r (write_movements state ms).runner_pitcher_responsibility) ≡ true
  write_movements-tracked b r h =
      grind (arith, placement b r h, sound.tracked b r, write_movements-charge state ms r runners)

  pub write_movements-RunnersSound : RunnersSound (write_movements state ms)
  write_movements-RunnersSound = record {
    apart = write_movements-apart;
    tracked = write_movements-tracked;
  }
