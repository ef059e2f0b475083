-- ===== src/Engine/Movement.antt =====
-- `applyMovements` of src/domain/events/game-engine.ts: its checks in their order, then the writes.
pub mod Effects
pub mod Placement
pub mod Integrity
pub mod Runs
pub mod Order
use baseballstattrack.Common.{
  ℕ, suc, ◌+◌, Bool, true, false, not, ◌&&◌, ◌||◌, Option, none, some, List, [], ◌∷◌, map, length,
  leb, ltb, if◌then◌else◌, is_some, filter, any, find, sort_by, any_indexed, ◌==◌, nat_eq, contains,
  distinct, option_beq, Dict, lookup, insert, erase, values, Result, ok, err, guard, ◌>>◌,
  type_error, EventErrorCode,
}
use baseballstattrack.Events.Enums.{
  Base, first, second, third, RunnerOrigin, RunnerDestination, MovementCause,
}
use baseballstattrack.Events.Equality.{
  side_eq, position_eq, base_eq, origin_eq, cause_eq, outcome_eq, credit_eq, play_type_eq,
  policy_eq, status_eq, base_code, origin_code, destination_eq, destination_code,
}
use baseballstattrack.Events.State.{at_side, put_side, Bases, at_base, put_base, GameState}
use baseballstattrack.Events.Bodies.{RunnerMovement}
use baseballstattrack.Events.Schema.{is_home, is_out, is_true}
use baseballstattrack.Engine.Innings.{batting_side, fielding_side}

abbrev pub runner_ids : List RunnerMovement → List ℕ
runner_ids = map (λ (m : RunnerMovement). m.runner_id)

-- The bases that the movements leave: `origins`, and `freedBases` once each is known to be held.
abbrev pub origins : List RunnerMovement → List Base
origins [] = []
origins (m ∷ ms) =
    let rest = origins ms in
    elim m.from [ RunnerOrigin.batter ↦ rest | RunnerOrigin.on b ↦ b ∷ rest ]

abbrev pub destinations : List RunnerMovement → List Base
destinations [] = []
destinations (m ∷ ms) =
    let rest = destinations ms in
    elim m.to [
      | RunnerDestination.safe_at b ↦ b ∷ rest
      | RunnerDestination.home_plate ↦ rest
      | RunnerDestination.out ↦ rest
    ]

abbrev pub out_movements : List RunnerMovement → List RunnerMovement
out_movements = filter (λ (m : RunnerMovement). is_out m.to)

unfoldable pub has_duplicates : List RunnerMovement → Bool
has_duplicates ms =
    not (distinct (runner_ids ms))
    || not (distinct (origins ms))
    || not (distinct (destinations ms))

abbrev pub forced_safe_movement : List RunnerMovement → RunnerOrigin → RunnerDestination → Bool
forced_safe_movement ms from to =
    any (λ (m : RunnerMovement). m.from == from && m.to == to && m.forced && not (is_out m.to)) ms

-- The batter to first, or one base on behind a runner who is forced too.
abbrev pub forced_chain : List RunnerMovement → RunnerOrigin → RunnerDestination → Bool
forced_chain ms RunnerOrigin.batter (RunnerDestination.safe_at first) = true
forced_chain ms (RunnerOrigin.on first) (RunnerDestination.safe_at second) =
    forced_safe_movement ms RunnerOrigin.batter (RunnerDestination.safe_at first)
forced_chain ms (RunnerOrigin.on second) (RunnerDestination.safe_at third) =
    forced_safe_movement ms (RunnerOrigin.on first) (RunnerDestination.safe_at second)
forced_chain ms (RunnerOrigin.on third) RunnerDestination.home_plate =
    forced_safe_movement ms (RunnerOrigin.on second) (RunnerDestination.safe_at third)
forced_chain _ _ _ = false

abbrev pub forced_invalid : List RunnerMovement → RunnerMovement → Bool
forced_invalid ms m =
    not (is_out m.to)
    && (m.forced && not (forced_chain ms m.from m.to)
        || m.cause == MovementCause.forced_advance && not m.forced)

-- `baseRank[movement.to] <= baseRank[movement.from]` of a movement that is no out.
abbrev pub retreats : RunnerMovement → Bool
retreats m = not (is_out m.to) && leb (destination_code m.to) (origin_code m.from)

abbrev pub check_origin : GameState → RunnerMovement → Result (Unit {0})
check_origin state m = elim m.from [
  | RunnerOrigin.batter ↦
      guard (not (m.responsible_pitcher_id == at_side state.active_pitcher (fielding_side state)))
        EventErrorCode.invalid_pitcher
  | RunnerOrigin.on b ↦
      guard
        (not (option_beq (at_base state.bases b) (some m.runner_id))
          || not (
              option_beq (lookup m.runner_id state.runner_pitcher_responsibility)
                (some m.responsible_pitcher_id)))
        EventErrorCode.invalid_runner_movement
]

-- `movement.out!.fielders` of an out.
abbrev pub check_fielders : GameState → RunnerMovement → Result (Unit {0})
check_fielders state m =
    if is_out m.to
    then elim m.out_details [
      | none ↦ err type_error
      | some o ↦
          guard
            (any (λ f. not (contains (values (at_side state.defense (fielding_side state))) f))
              o.fielders)
            EventErrorCode.invalid_lineup
    ]
    else ok tt

unfoldable pub check_movement : GameState → RunnerMovement → Result (Unit {0})
check_movement state m = do
  guard (retreats m) EventErrorCode.invalid_runner_movement
  check_origin state m
  check_fielders state m

unfoldable pub check_movements : GameState → List RunnerMovement → Result (Unit {0})
check_movements state [] = ok tt
check_movements state (m ∷ ms) = check_movement state m >> check_movements state ms

-- A destination that is held, and whose runner does not leave it.
abbrev pub destination_occupied : GameState → List RunnerMovement → Bool
destination_occupied state ms =
    any (λ b. is_some (at_base state.bases b) && not (contains (origins ms) b)) (destinations ms)

abbrev pub out_number : RunnerMovement → ℕ
out_number m = elim m.out_details [ none ↦ 0 | some o ↦ o.out_number ]

abbrev pub recorded_out_numbers : List RunnerMovement → List ℕ
recorded_out_numbers ms = sort_by (λ n. n) (map out_number (out_movements ms))

abbrev pub out_order_invalid : GameState → List RunnerMovement → Bool
out_order_invalid state ms =
    any_indexed (λ n index. not (n == state.outs + index + 1)) 0 (recorded_out_numbers ms)

abbrev pub is_force : RunnerMovement → Bool
is_force m = elim m.out_details [ none ↦ false | some o ↦ o.force ]

-- The third out of the inning is a force out.
abbrev pub ends_by_force : List RunnerMovement → Bool
ends_by_force ms = elim (find (λ m. out_number m == 3) (out_movements ms)) [
  | none ↦ false
  | some m ↦ is_force m
]

abbrev pub run_scores : RunnerMovement → Bool
run_scores m = is_home m.to && is_true m.run_counts

abbrev pub clear_bases : List Base → Bases → Bases
clear_bases [] bases = bases
clear_bases (b ∷ bs) bases = clear_bases bs (put_base b none bases)

abbrev pub add_run : GameState → GameState
add_run state =
    let side = batting_side state in
    record state { score = put_side side (at_side state.score side + 1) state.score }

abbrev pub forget_runner : ℕ → GameState → GameState
forget_runner runner_id state = record state {
  runner_pitcher_responsibility = erase runner_id state.runner_pitcher_responsibility;
}

unfoldable pub move_runner : GameState → RunnerMovement → GameState
move_runner state m = elim m.to [
  | RunnerDestination.home_plate ↦
      forget_runner m.runner_id (if is_true m.run_counts then add_run state else state)
  | RunnerDestination.out ↦ forget_runner m.runner_id state
  | RunnerDestination.safe_at b ↦ record state {
    bases = put_base b (some m.runner_id) state.bases;
    runner_pitcher_responsibility =
        insert m.runner_id m.responsible_pitcher_id state.runner_pitcher_responsibility;
  }
]

unfoldable pub move_runners : GameState → List RunnerMovement → GameState
move_runners state [] = state
move_runners state (m ∷ ms) = move_runners (move_runner state m) ms

abbrev pub rank_base : Base → Option ℕ → Dict ℕ ℕ → Dict ℕ ℕ
rank_base b none ranks = ranks
rank_base b (some runner_id) ranks = insert runner_id (suc (base_code b)) ranks

-- `Object.entries(bases)` in the order of the bases.
abbrev pub base_ranks : Bases → Dict ℕ ℕ
base_ranks bases =
    rank_base third bases.on_third
      (rank_base second bases.on_second (rank_base first bases.on_first []))

abbrev pub rank_batter : RunnerOrigin → ℕ → Dict ℕ ℕ → Dict ℕ ℕ
rank_batter RunnerOrigin.batter runner_id ranks = insert runner_id 0 ranks
rank_batter (RunnerOrigin.on _) runner_id ranks = ranks

abbrev pub rank_batters : List RunnerMovement → Dict ℕ ℕ → Dict ℕ ℕ
rank_batters [] ranks = ranks
rank_batters (m ∷ ms) ranks = rank_batters ms (rank_batter m.from m.runner_id ranks)

-- Both runners are still on base, and the one who began behind is not behind.
abbrev pub passes : Dict ℕ ℕ → ℕ × ℕ → ℕ × ℕ → Bool
passes final (trailing, trailing_origin) (leading, leading_origin) =
    ltb trailing_origin leading_origin && elim (lookup trailing final) [
      | none ↦ false
      | some t ↦ elim (lookup leading final) [ none ↦ false | some l ↦ leb l t ]
    ]

unfoldable pub runner_passed : Bases → List RunnerMovement → Bases → Bool
runner_passed before ms after =
    let original = rank_batters ms (base_ranks before) in
    any (λ t. any (passes (base_ranks after) t) original) original

unfoldable pub write_movements : GameState → List RunnerMovement → GameState
unfolding move_runners
write_movements state ms =
    move_runners (record state { bases = clear_bases (origins ms) state.bases }) ms

unfoldable pub apply_movements : GameState → List RunnerMovement → Result (GameState × ℕ)
apply_movements state ms = do
  guard (has_duplicates ms) EventErrorCode.invalid_runner_movement
  guard (any (forced_invalid ms) ms) EventErrorCode.invalid_runner_movement
  check_movements state ms
  guard (destination_occupied state ms) EventErrorCode.invalid_runner_movement
  guard (out_order_invalid state ms) EventErrorCode.invalid_baseball_transition
  guard (ends_by_force ms && any run_scores ms) EventErrorCode.invalid_baseball_transition
  let next = write_movements state ms
  guard (runner_passed state.bases ms next.bases) EventErrorCode.invalid_runner_movement
  ok (next, length (out_movements ms))
