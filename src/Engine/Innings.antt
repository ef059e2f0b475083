-- ===== src/Engine/Innings.antt =====
-- Sides, batters, liveness and outs: src/domain/events/game-engine.ts.
pub mod Outs
use baseballstattrack.Common.{
  ℕ, ◌+◌, ◌%◌, Bool, true, false, not, Option, none, some, List, [], length, ltb, if◌then◌else◌,
  get_elem?, get_or, ◌==◌, nat_eq, Result, ok, guard, or_raise, ◌>>=◌, ◌>>◌, EventErrorCode,
}
use baseballstattrack.Events.Enums.{GameSide, home, away, Half, top, bottom, in_progress}
use baseballstattrack.Events.Equality.{
  side_eq, position_eq, base_eq, origin_eq, cause_eq, outcome_eq, credit_eq, play_type_eq,
  policy_eq, status_eq,
}
use baseballstattrack.Events.State.{at_side, empty_bases, LineupEntry, GameState}
use baseballstattrack.Engine.Setup.{active_players, in_batting_order}

-- `state.half === "TOP" ? "AWAY" : "HOME"`, also before the first pitch.
unfoldable pub batting_side : GameState → GameSide
batting_side state = elim state.half [
  | none ↦ home
  | some h ↦ elim h [ top ↦ away | bottom ↦ home ]
]

unfoldable pub fielding_side : GameState → GameSide
unfolding batting_side
fielding_side state = elim (batting_side state) [ home ↦ away | away ↦ home ]

-- Filtering on both tests at once and then sorting.
abbrev pub active_batters : GameState → GameSide → List LineupEntry
active_batters state side = in_batting_order (active_players (at_side state.lineups side))

-- With no active batter the index is out of range, as `0 % 0` is in the source.
unfoldable pub current_batter : GameState → Result ℕ
unfolding batting_side
current_batter state =
    let side = batting_side state in
    let lineup = active_batters state side in
    do
      batter ←
          or_raise (get_elem? lineup (at_side state.batting_order_index side % length lineup))
            EventErrorCode.internal_invariant_failure
      ok batter.player_id

unfoldable pub require_live : GameState → Result (Unit {0})
require_live state =
    guard (not (state.status == in_progress)) EventErrorCode.invalid_lifecycle_transition

abbrev option_half_is_top : Option Half → Bool
option_half_is_top (some top) = true
option_half_is_top _ = false

-- The third out: the bases are cleared and the other side bats.
unfoldable pub end_half_inning : GameState → GameState
end_half_inning state =
    let cleared = record state {
      outs = 0;
      bases = empty_bases;
      runner_pitcher_responsibility = [];
    } in
    if option_half_is_top state.half
    then record cleared { half = some bottom }
    else record cleared { half = some top; inning = some (get_or state.inning 0 + 1) }

unfoldable pub finish_outs : GameState → ℕ → Result GameState
unfolding end_half_inning
finish_outs state outs =
    guard (ltb 3 (state.outs + outs)) EventErrorCode.invalid_baseball_transition
    >> ok (
        let counted = record state { outs = state.outs + outs } in
        if counted.outs == 3 then end_half_inning counted else counted)
