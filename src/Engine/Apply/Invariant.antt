-- ===== src/Engine/Apply/Invariant.antt =====
-- The invariant through every event body, and from the accepted setup on.
use baseballstattrack.Common.{◌≡◌, refl, false, ◌&&◌, is_some, nat_eq, ok, arith}
use baseballstattrack.Events.Equality.{
  side_eq, position_eq, base_eq, origin_eq, cause_eq, outcome_eq, credit_eq, play_type_eq,
  policy_eq, status_eq, destination_eq,
}
use baseballstattrack.Events.State.{Bases, GameState}
use baseballstattrack.Events.Bodies.{
  EventBody, play, correction_applied, game_started, game_suspended, game_resumed, game_completed,
  game_verified, game_reopened, game_abandoned, game_cancelled,
}
use baseballstattrack.Engine.Innings.{require_live}
use baseballstattrack.Engine.Lifecycle.{
  start_game, suspend_game, resume_game, complete_game, verify_game, reopen_game, abandon_game,
  cancel_game, correct_game,
}
use baseballstattrack.Engine.Roster.Runners.{RunnersSound-same}
use baseballstattrack.Engine.Apply.{apply_body}
use baseballstattrack.Engine.Apply.Soundness.{
  Sound, is_started, PitcherPlaced-same, apply_play-Sound,
}
use baseballstattrack.Engine.Apply.Soundness.Batters.{EntersOffBase}
use baseballstattrack.Engine.Apply.Lifecycle.{StatusMoved, lifecycle-StatusMoved, is_play}

-- The condition on the event bodies that are plays; there is none on the others.
abbrev pub BodyEnters : Bases → EventBody → Type 0
BodyEnters bases (play p) = EntersOffBase bases p
BodyEnters bases _ = Unit

lifecycle-Sound :
    (state : GameState) (body : EventBody) (next : GameState)
    → StatusMoved state next
    → (is_started state.status ≡ (is_some state.half && is_some state.inning)
        → is_started next.status ≡ (is_some next.half && is_some next.inning))
    → Sound state
    → Sound next
lifecycle-Sound state body next m c sound = record {
  outs = rw m.outs sound.outs;
  pitchers = λ side. PitcherPlaced-same state next side m.defense m.pitchers (sound.pitchers side);
  runners = RunnersSound-same state next m.bases m.charges sound.runners;
  clock = c sound.clock;
}

clock-kept :
    (state : GameState) (body : EventBody) (next : GameState)
    → is_play body ≡ false
    → apply_body state body ≡ ok next
    → is_started state.status ≡ (is_some state.half && is_some state.inning)
    → is_started next.status ≡ (is_some next.half && is_some next.inning)
unfolding apply_body start_game suspend_game resume_game complete_game verify_game reopen_game
    abandon_game cancel_game correct_game require_live
clock-kept state (play p) next n h c = cc
clock-kept state game_started next n h c = ground arith
clock-kept state (game_suspended r) next n h c = ground arith
clock-kept state game_resumed next n h c = ground arith
clock-kept state (game_completed e r) next n h c = ground arith
clock-kept state game_verified next n h c = ground arith
clock-kept state (game_reopened r) next n h c = ground arith
clock-kept state (game_abandoned r) next n h c = ground arith
clock-kept state (game_cancelled r) next n h c = ground arith
clock-kept state (correction_applied d) next n h c = ground arith

-- Every event body that is accepted keeps the invariant of a game, under these conditions: the batter
-- of a plate appearance, whatever becomes of him, an out included, and the incoming player of a
-- defensive substitution stand on no base before it, and a runner play passes the checks of its schema
-- (`runnerPlaySchema`), none of whose movements is from the plate.
pub apply_body-Sound :
    (state : GameState) (body : EventBody) (next : GameState)
    → apply_body state body ≡ ok next
    → BodyEnters state.bases body
    → Sound state
    → Sound next
unfolding apply_body
apply_body-Sound state (play p) next h off sound = apply_play-Sound state p next h off sound
apply_body-Sound state body next h off sound =
    lifecycle-Sound state body next (lifecycle-StatusMoved state body next refl h)
      (clock-kept state body next refl h) sound
