-- ===== src/Engine/Apply/Lifecycle.antt =====
-- The lifecycle of a game as a relation on its statuses, and what its events leave alone.
use baseballstattrack.Common.{
  ◌≡◌, refl, ◌∙◌, inl, inr, Bool, true, false, nat_eq, ok, arith, Bool-cases,
}
use baseballstattrack.Events.Enums.{GameStatus, in_progress}
use baseballstattrack.Events.Equality.{
  side_eq, position_eq, base_eq, origin_eq, cause_eq, outcome_eq, credit_eq, play_type_eq,
  policy_eq, status_eq, destination_eq,
}
use baseballstattrack.Events.State.{GameState}
use baseballstattrack.Events.Bodies.{
  PlayBody, EventBody, play, correction_applied, game_started, game_suspended, game_resumed,
  game_completed, game_verified, game_reopened, game_abandoned, game_cancelled,
}
use baseballstattrack.Engine.Innings.{require_live, end_half_inning}
use baseballstattrack.Engine.Lifecycle.{
  start_game, suspend_game, resume_game, complete_game, verify_game, reopen_game, abandon_game,
  cancel_game, correct_game,
}
use baseballstattrack.Engine.Movement.Effects.{write_movements-SameFrame}
use baseballstattrack.Engine.Apply.{apply_play, apply_body}
use baseballstattrack.Engine.Apply.Scoring.{
  is_scoring, ends_turn, play_movements, apply_play-Resolved, resolved, Resolved-next,
}
use baseballstattrack.Engine.Apply.Results.{roster-RosterFrame}

-- The edges of the lifecycle diagram.
pub data Transition : GameStatus → GameStatus → Type 0 where
  start : Transition GameStatus.ready in_progress
  cancel : Transition GameStatus.ready GameStatus.cancelled
  scored : Transition in_progress in_progress
  suspend : Transition in_progress GameStatus.suspended
  resume : Transition GameStatus.suspended in_progress
  complete : Transition in_progress GameStatus.completed
  verify : Transition GameStatus.completed GameStatus.verified
  verify_again : Transition GameStatus.corrected GameStatus.verified
  reopen : Transition GameStatus.verified GameStatus.corrected
  correct : Transition GameStatus.completed GameStatus.corrected
  correct_again : Transition GameStatus.corrected GameStatus.corrected
  abandon_live : Transition in_progress GameStatus.abandoned
  abandon_suspended : Transition GameStatus.suspended GameStatus.abandoned
  abandon_completed : Transition GameStatus.completed GameStatus.abandoned
  abandon_corrected : Transition GameStatus.corrected GameStatus.abandoned

ruleset edges = (
  start, cancel, scored, suspend, resume, complete, verify, verify_again, reopen, correct,
  correct_again, abandon_live, abandon_suspended, abandon_completed, abandon_corrected,
)

abbrev pub is_play : EventBody → Bool
is_play (play _) = true
is_play _ = false

play-status :
    (state : GameState) (p : PlayBody) (next : GameState)
    → apply_play state p ≡ ok next
    → (state.status ≡ in_progress) × (next.status ≡ in_progress)
unfolding resolved end_half_inning
play-status state p next h = elim (Bool-cases (is_scoring p)) [
  | inl s ↦
      let r = apply_play-Resolved state p s h in
      let (_, _, e) = Resolved-next state (ends_turn p) (play_movements state p) next r in
      (
        r.live,
        ground
            (arith, r.live, e, (write_movements-SameFrame state (play_movements state p)).status),
      )
  | inr n ↦
      let frame = roster-RosterFrame state p next n h in (frame.live, frame.status ∙ frame.live)
]

play-Transition : (s t : GameStatus) → s ≡ in_progress → t ≡ in_progress → Transition s t
play-Transition s t e f = rw (e, f) scored

lifecycle-Transition :
    (state : GameState) (body : EventBody) (next : GameState)
    → is_play body ≡ false
    → apply_body state body ≡ ok next
    → Transition state.status next.status
unfolding apply_body start_game suspend_game resume_game complete_game verify_game reopen_game
    abandon_game cancel_game correct_game require_live
lifecycle-Transition state (play p) next n h = cc
lifecycle-Transition state game_started next n h = grind (arith, edges)
lifecycle-Transition state (game_suspended r) next n h = grind (arith, edges)
lifecycle-Transition state game_resumed next n h = grind (arith, edges)
lifecycle-Transition state (game_completed e r) next n h = grind (arith, edges)
lifecycle-Transition state game_verified next n h = grind (arith, edges)
lifecycle-Transition state (game_reopened r) next n h = grind (arith, edges)
lifecycle-Transition state (game_abandoned r) next n h = grind (arith, edges)
lifecycle-Transition state (game_cancelled r) next n h = grind (arith, edges)
lifecycle-Transition state (correction_applied c) next n h = grind (arith, edges)

-- Every event body that is accepted follows an edge of the lifecycle.
pub apply_body-Transition :
    (state : GameState) (body : EventBody) (next : GameState)
    → apply_body state body ≡ ok next
    → Transition state.status next.status
unfolding apply_body
apply_body-Transition state (play p) next h =
    let (e, f) = play-status state p next h in play-Transition state.status next.status e f
apply_body-Transition state body next h = lifecycle-Transition state body next refl h

-- What the body of an event that is no play leaves alone when it is applied.
pub record StatusMoved (state next : GameState) : Type 0 where
  pub outs : next.outs ≡ state.outs
  pub score : next.score ≡ state.score
  pub bases : next.bases ≡ state.bases
  pub charges : next.runner_pitcher_responsibility ≡ state.runner_pitcher_responsibility
  pub order : next.batting_order_index ≡ state.batting_order_index
  pub lineups : next.lineups ≡ state.lineups
  pub participated : next.participated_players ≡ state.participated_players
  pub defense : next.defense ≡ state.defense
  pub pitchers : next.active_pitcher ≡ state.active_pitcher

-- When `applyBody` accepts an event body that is no play, it leaves the outs, the score, the bases and
-- the pitchers responsible for the runners, the batting order, the lineups, the participants, the
-- defense and the active pitchers of the state it is given alone. What the targets and the
-- replacements of a correction change in a replay, through `resolveCorrections`, is not part of it.
pub lifecycle-StatusMoved :
    (state : GameState) (body : EventBody) (next : GameState)
    → is_play body ≡ false
    → apply_body state body ≡ ok next
    → StatusMoved state next
unfolding apply_body start_game suspend_game resume_game complete_game verify_game reopen_game
    abandon_game cancel_game correct_game require_live
lifecycle-StatusMoved state (play p) next n h = cc
lifecycle-StatusMoved state game_started next n h = ground arith
lifecycle-StatusMoved state (game_suspended r) next n h = ground arith
lifecycle-StatusMoved state game_resumed next n h = ground arith
lifecycle-StatusMoved state (game_completed e r) next n h = ground arith
lifecycle-StatusMoved state game_verified next n h = ground arith
lifecycle-StatusMoved state (game_reopened r) next n h = ground arith
lifecycle-StatusMoved state (game_abandoned r) next n h = ground arith
lifecycle-StatusMoved state (game_cancelled r) next n h = ground arith
lifecycle-StatusMoved state (correction_applied c) next n h = ground arith
