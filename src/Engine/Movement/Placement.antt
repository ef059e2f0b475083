-- ===== src/Engine/Movement/Placement.antt =====
-- Where `applyMovements` leaves the runners, and the pitchers responsible for them.
use baseballstattrack.Common.{
  ℕ, ◌≡◌, refl, true, false, Option, none, some, List, [], ◌∷◌, if◌then◌else◌, find, ◌==◌, nat_eq,
  contains, distinct, lookup, arith,
}
use baseballstattrack.Events.Enums.{Base, RunnerDestination}
use baseballstattrack.Events.Equality.{
  side_eq, position_eq, base_eq, origin_eq, cause_eq, outcome_eq, credit_eq, play_type_eq,
  policy_eq, status_eq, destination_eq,
}
use baseballstattrack.Events.State.{Bases, at_base, put_base, GameState}
use baseballstattrack.Events.Bodies.{RunnerMovement}
use baseballstattrack.Common.{lookup-insert, lookup-erase}
use baseballstattrack.Engine.Movement.{
  runner_ids, destinations, move_runner, move_runners, clear_bases,
}

-- The movement that ends on a base, and the movement of a runner.
abbrev pub arrival : Base → List RunnerMovement → Option RunnerMovement
arrival b = find (λ m. m.to == RunnerDestination.safe_at b)

abbrev pub movement_of : ℕ → List RunnerMovement → Option RunnerMovement
movement_of r = find (λ m. m.runner_id == r)

-- Who stands on a base afterwards, given who stood there.
abbrev pub placed : Option ℕ → Option RunnerMovement → Option ℕ
placed before none = before
placed before (some m) = some m.runner_id

-- The pitcher responsible afterwards, given the one before.
abbrev pub charged : Option ℕ → Option RunnerMovement → Option ℕ
charged before none = before
charged before (some m) = elim m.to [
  | RunnerDestination.safe_at b ↦ some m.responsible_pitcher_id
  | RunnerDestination.home_plate ↦ none
  | RunnerDestination.out ↦ none
]

pub at_base-put_base :
    (bases : Bases) (c : Base) (r : Option ℕ) (b : Base)
    → at_base (put_base c r bases) b ≡ (if c == b then r else at_base bases b)
at_base-put_base bases c r b = ground arith

pub at_base-clear_bases :
    (bs : List Base) (bases : Bases) (b : Base)
    → at_base (clear_bases bs bases) b ≡ (if contains bs b then none else at_base bases b)
at_base-clear_bases [] bases b = refl
at_base-clear_bases (c ∷ bs) bases b =
    ground
      (arith, at_base-clear_bases bs (put_base c none bases) b, at_base-put_base bases c none b)

-- A base that no destination names keeps its runner.
arrival-none :
    (b : Base) (ms : List RunnerMovement)
    → contains (destinations ms) b ≡ false
    → arrival b ms ≡ none
arrival-none b [] h = refl
arrival-none b (m ∷ ms) h = ground (arith, arrival-none b ms)

movement_of-none :
    (r : ℕ) (ms : List RunnerMovement)
    → contains (runner_ids ms) r ≡ false
    → movement_of r ms ≡ none
movement_of-none r [] h = refl
movement_of-none r (m ∷ ms) h = ground (arith, movement_of-none r ms)

move_runner-base :
    (state : GameState) (m : RunnerMovement) (b : Base)
    → at_base (move_runner state m).bases b
      ≡ (if m.to == RunnerDestination.safe_at b then some m.runner_id else at_base state.bases b)
unfolding move_runner
move_runner-base state m b = ground arith

move_runner-charge :
    (state : GameState) (m : RunnerMovement) (r : ℕ)
    → lookup r (move_runner state m).runner_pitcher_responsibility ≡ (
        if m.runner_id == r
        then charged none (some m)
        else lookup r state.runner_pitcher_responsibility)
unfolding move_runner
move_runner-charge state m r = ground (
  arith,
  lookup-insert r m.runner_id m.responsible_pitcher_id state.runner_pitcher_responsibility,
  lookup-erase r m.runner_id state.runner_pitcher_responsibility,
)

-- The runner who arrives on a base stands there; any other base is as it was.
pub move_runners-base :
    (state : GameState) (ms : List RunnerMovement) (b : Base)
    → distinct (destinations ms) ≡ true
    → at_base (move_runners state ms).bases b ≡ placed (at_base state.bases b) (arrival b ms)
unfolding move_runners
move_runners-base state [] b h = refl
move_runners-base state (m ∷ ms) b h = ground (
  arith,
  move_runners-base (move_runner state m) ms b,
  move_runner-base state m b,
  arrival-none b ms,
)

pub move_runners-charge :
    (state : GameState) (ms : List RunnerMovement) (r : ℕ)
    → distinct (runner_ids ms) ≡ true
    → lookup r (move_runners state ms).runner_pitcher_responsibility
      ≡ charged (lookup r state.runner_pitcher_responsibility) (movement_of r ms)
unfolding move_runners
move_runners-charge state [] r h = refl
move_runners-charge state (m ∷ ms) r h = ground (
  arith,
  move_runners-charge (move_runner state m) ms r,
  move_runner-charge state m r,
  movement_of-none r ms,
)
