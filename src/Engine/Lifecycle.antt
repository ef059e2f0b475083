-- ===== src/Engine/Lifecycle.antt =====
-- The lifecycle cases of `applyBody`, src/domain/events/game-engine.ts.
use baseballstattrack.Common.{
  Bool, true, false, not, ◌&&◌, ◌||◌, none, some, [], ◌∷◌, leb, ltb, if◌then◌else◌, get_or, ◌==◌,
  nat_eq, contains, Result, ok, guard, ◌>>◌, EventErrorCode,
}
use baseballstattrack.Events.Enums.{GameStatus, Half, top, bottom, in_progress, Ending}
use baseballstattrack.Events.Equality.{
  side_eq, position_eq, base_eq, origin_eq, cause_eq, outcome_eq, credit_eq, play_type_eq,
  policy_eq, status_eq, destination_eq,
}
use baseballstattrack.Events.State.{GameState}
use baseballstattrack.Engine.Innings.{require_live}

abbrev has_status : GameState → GameStatus → Bool
has_status state status = state.status == status

abbrev set_status : GameStatus → GameState → GameState
set_status status state = record state { status = status }

-- `if (!allowed) throw new GameEventError("INVALID_LIFECYCLE_TRANSITION")`
abbrev require_status : Bool → Result (Unit {0})
require_status allowed = guard (not allowed) EventErrorCode.invalid_lifecycle_transition

abbrev pub home_leads : GameState → Bool
home_leads state = ltb state.score.away_side state.score.home_side

abbrev pub half_is : Half → GameState → Bool
half_is top state = elim state.half [
  | none ↦ false
  | some h ↦ elim h [ top ↦ true | bottom ↦ false ]
]
half_is bottom state = elim state.half [
  | none ↦ false
  | some h ↦ elim h [ top ↦ false | bottom ↦ true ]
]

unfoldable pub regulation_ending : GameState → Bool
regulation_ending state =
    let inning = get_or state.inning 0 in
    not (state.score.home_side == state.score.away_side)
    && (ltb state.scheduled_innings inning && half_is top state
        || leb state.scheduled_innings inning && half_is bottom state && home_leads state)

unfoldable pub ending_refused : Ending → GameState → Bool
unfolding regulation_ending
ending_refused Ending.regulation state = not (regulation_ending state)
ending_refused Ending.walk_off state =
    ltb (get_or state.inning 0) state.scheduled_innings
    || not (half_is bottom state)
    || not (home_leads state)
ending_refused _ state = false

unfoldable pub start_game : GameState → Result GameState
start_game state =
    require_status (has_status state GameStatus.ready)
    >> ok (record state { status = in_progress; inning = some 1; half = some top })

unfoldable pub suspend_game : GameState → Result GameState
unfolding require_live
suspend_game state = require_live state >> ok (set_status GameStatus.suspended state)

unfoldable pub resume_game : GameState → Result GameState
resume_game state =
    require_status (has_status state GameStatus.suspended) >> ok (set_status in_progress state)

unfoldable pub complete_game : Ending → GameState → Result GameState
unfolding require_live
complete_game ending state =
    require_live state
    >> guard (ending_refused ending state) EventErrorCode.invalid_baseball_transition
    >> ok (set_status GameStatus.completed state)

unfoldable pub verify_game : GameState → Result GameState
verify_game state =
    require_status (has_status state GameStatus.completed || has_status state GameStatus.corrected)
    >> ok (set_status GameStatus.verified state)

unfoldable pub reopen_game : GameState → Result GameState
reopen_game state =
    require_status (has_status state GameStatus.verified)
    >> ok (set_status GameStatus.corrected state)

unfoldable pub abandon_game : GameState → Result GameState
abandon_game state =
    require_status (
      contains
        (in_progress ∷ GameStatus.suspended ∷ GameStatus.completed ∷ GameStatus.corrected ∷ [])
        state.status)
    >> ok (set_status GameStatus.abandoned state)

unfoldable pub cancel_game : GameState → Result GameState
cancel_game state =
    require_status (has_status state GameStatus.ready) >> ok (set_status GameStatus.cancelled state)

unfoldable pub correct_game : GameState → Result GameState
correct_game state =
    require_status (
      has_status state in_progress
      || has_status state GameStatus.completed
      || has_status state GameStatus.corrected)
    >> ok (if has_status state in_progress then state else set_status GameStatus.corrected state)
