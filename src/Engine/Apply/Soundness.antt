-- ===== src/Engine/Apply/Soundness.antt =====
-- The invariant of a game in play, through every event body.
pub mod Batters
use baseballstattrack.Common.{
  ℕ, zero, suc, ◌+◌, ◌-◌, ◌%◌, ◌≤◌, ◌<◌, ◌≡◌, ◌≢◌, refl, sym, ap, ◌∙◌, ◌⊎◌, inl, inr, Bool, true,
  false, not, ◌&&◌, ◌||◌, Option, none, some, List, [], ◌∷◌, ◌++◌, map, length, leb, ltb,
  if◌then◌else◌, is_some, filter, any, all, find, update_first, sort_by, get_elem?, get_or, take,
  compact, any_indexed, Eq, ◌==◌, nat_eq, contains, distinct, option_beq, Dict, lookup, insert,
  erase, from_entries, values, Result, ok, err, raise, guard, or_raise, ◌>>=◌, ◌>>◌, type_error,
  EventErrorCode, arith, Bool-cases, Option-cases,
}
use baseballstattrack.Events.Enums.{
  GameSide, home, away, Position, Base, first, second, third, RunnerOrigin, RunnerDestination,
  GameStatus, Half, top, bottom, in_progress, MovementCause, Outcome, BattedBall,
  FieldingCreditKind, RunnerOutCause, StealTarget, StealResult, PlayType, Ending, Policy,
  SchemaVersion,
}
use baseballstattrack.Events.Equality.{
  side_eq, position_eq, base_eq, origin_eq, cause_eq, outcome_eq, credit_eq, play_type_eq,
  policy_eq, status_eq, status_beq_iff, base_code, origin_code, credit_code, destination_eq,
  destination_code,
}
use baseballstattrack.Events.State.{
  Sides, at_side, put_side, Bases, at_base, put_base, empty_bases, AcceptedEvent, LineupEntry,
  SetupSide, AcceptedSetup, GameState,
}
use baseballstattrack.Events.Bodies.{
  OutDetails, RunnerMovement, FieldingCredit, PlateAppearance, RunnerOut, StolenBaseAttempt,
  RunnerPlay, Substitution, Assignment, Alignment, PitchingChange, PlayBody,
  plate_appearance_recorded, runner_advance_recorded, runner_out_recorded,
  stolen_base_attempt_recorded, runner_play_recorded, defensive_substitution_made,
  defensive_alignment_changed, pitching_change_made, Replacement, Correction, EventBody, play,
  correction_applied, game_started, game_suspended, game_resumed, game_completed, game_verified,
  game_reopened, game_abandoned, game_cancelled,
}
use baseballstattrack.Events.Schema.{is_home, is_out, is_true}
use baseballstattrack.Engine.Innings.{end_half_inning}
use baseballstattrack.Engine.Innings.Outs.{finished, finished-outs}
use baseballstattrack.Engine.Movement.{
  has_duplicates, runner_ids, destinations, write_movements, out_movements,
}
use baseballstattrack.Engine.Movement.Effects.{Moved, SameFrame, write_movements-SameFrame}
use baseballstattrack.Engine.Movement.Integrity.{
  RunnersSound, BattersOffBase, write_movements-RunnersSound,
}
use baseballstattrack.Engine.Plays.Resolution.{advanced_if}
use baseballstattrack.Engine.Roster.Frame.{
  RosterFrame, substitution-RosterFrame, alignment-RosterFrame, pitching_change-RosterFrame,
}
use baseballstattrack.Engine.Roster.Pitchers.{
  PitcherPlaced, substitution-PitcherPlaced, alignment-PitcherPlaced, pitching_change-PitcherPlaced,
}
use baseballstattrack.Engine.Roster.Runners.{
  RunnersSound-same, OffBase, substitution-RunnersSound, alignment-RunnersSound,
  pitching_change-RunnersSound,
}
use baseballstattrack.Engine.Apply.{apply_play, apply_body}
use baseballstattrack.Engine.Apply.Scoring.{
  play_movements, is_scoring, ends_turn, apply_play-Resolved, resolved, Resolved-next,
}
use baseballstattrack.Engine.Apply.Results.{
  roster-RosterFrame, resolved-OutsCounted, OutsCounted-outs,
}
use Batters.{EntersOffBase, enters-BattersOffBase}

abbrev pub is_started : GameStatus → Bool
is_started GameStatus.ready = false
is_started GameStatus.cancelled = false
is_started _ = true

-- Two outs at most, the pitchers at their position, everybody on base once and charged to a pitcher,
-- and a half-inning exactly when the game has begun.
pub record Sound (state : GameState) : Type 0 where
  pub outs : state.outs ≤ 2
  pub pitchers : (side : GameSide) → PitcherPlaced state side
  pub runners : RunnersSound state
  pub clock : is_started state.status ≡ (is_some state.half && is_some state.inning)

pub Moved-distinct :
    (state : GameState) (ms : List RunnerMovement) {next : GameState} {n : ℕ}
    → Moved state ms next n
    → (distinct (runner_ids ms) ≡ true) × (distinct (destinations ms) ≡ true)
unfolding has_duplicates
Moved-distinct state ms m = ground (arith, m.no_duplicates)

-- A scoring play as the invariant sees it.
pub record Shape (state written next : GameState) : Type 0 where
  pub defense : next.defense ≡ state.defense
  pub pitchers : next.active_pitcher ≡ state.active_pitcher
  pub status : next.status ≡ state.status
  pub clock :
      (is_some state.half && is_some state.inning) ≡ true
      → (is_some next.half && is_some next.inning) ≡ true
  pub bases :
      ((next.bases ≡ written.bases)
        × (next.runner_pitcher_responsibility ≡ written.runner_pitcher_responsibility))
      ⊎ ((next.bases ≡ empty_bases) × (next.runner_pitcher_responsibility ≡ []))

pub resolved-Shape :
    (turn : Bool) (state : GameState) (ms : List RunnerMovement)
    → Shape state (write_movements state ms) (resolved turn state ms)
unfolding resolved end_half_inning
resolved-Shape turn state ms =
    let frame = write_movements-SameFrame state ms in
    record {
      defense = ground (arith, frame.defense);
      pitchers = ground (arith, frame.pitchers);
      status = ground (arith, frame.status);
      clock = λ h. ground (arith, frame.half, frame.inning);
      bases = ground arith;
    }

pub PitcherPlaced-same :
    (state next : GameState) (side : GameSide)
    → next.defense ≡ state.defense
    → next.active_pitcher ≡ state.active_pitcher
    → PitcherPlaced state side
    → PitcherPlaced next side
PitcherPlaced-same state next side e f h = rw (e, f) h

Shape-RunnersSound :
    (state written next : GameState)
    → Shape state written next
    → RunnersSound written
    → RunnersSound next
Shape-RunnersSound state written next shape sound = elim shape.bases [
  | inl (e, f) ↦ RunnersSound-same written next e f sound
  | inr (e, f) ↦ record {
    apart = λ b c r hb hc. absurd (ground (arith, e));
    tracked = λ b r h. absurd (ground (arith, e));
  }
]

scoring-Sound :
    (state : GameState) (p : PlayBody) (next : GameState)
    → is_scoring p ≡ true
    → apply_play state p ≡ ok next
    → EntersOffBase state.bases p
    → Sound state
    → Sound next
scoring-Sound state p next s h off sound =
    let ms = play_movements state p in
    let r = apply_play-Resolved state p s h in
    let (m, bound, e) = Resolved-next state (ends_turn p) ms next r in
    let (runners, targets) = Moved-distinct state ms m in
    let written =
      write_movements-RunnersSound state ms sound.runners runners targets m.checked
        (enters-BattersOffBase state p next s h off) in
    let shape = resolved-Shape (ends_turn p) state ms in
    let next_outs =
      OutsCounted-outs state (state.outs + length (out_movements ms))
        (resolved (ends_turn p) state ms) (resolved-OutsCounted state (ends_turn p) ms bound) in
    rw e (record {
      outs = next_outs;
      pitchers = λ side.
          PitcherPlaced-same state (resolved (ends_turn p) state ms) side shape.defense
            shape.pitchers (sound.pitchers side);
      runners =
          Shape-RunnersSound state (write_movements state ms) (resolved (ends_turn p) state ms)
            shape written;
      clock = ground (arith, r.live, shape.status, shape.clock, sound.clock);
    })

-- The clock of a lineup operation stands still.
roster-Sound :
    (state next : GameState)
    → RosterFrame state next
    → ((side : GameSide) → PitcherPlaced next side)
    → RunnersSound next
    → Sound state
    → Sound next
roster-Sound state next frame pitchers runners sound = record {
  outs = omega (arith, frame.outs, sound.outs);
  pitchers = pitchers;
  runners = runners;
  clock = ground (arith, frame.status, frame.half, frame.inning, sound.clock);
}

-- Every play that is accepted keeps the invariant, if the batter of a plate appearance and the incoming
-- player of a defensive substitution stand on no base, and a runner play passes the schema's checks.
pub apply_play-Sound :
    (state : GameState) (p : PlayBody) (next : GameState)
    → apply_play state p ≡ ok next
    → EntersOffBase state.bases p
    → Sound state
    → Sound next
unfolding apply_play
apply_play-Sound state (plate_appearance_recorded p) next h off sound =
    scoring-Sound state (plate_appearance_recorded p) next refl h off sound
apply_play-Sound state (runner_advance_recorded m) next h off sound =
    scoring-Sound state (runner_advance_recorded m) next refl h off sound
apply_play-Sound state (runner_out_recorded o) next h off sound =
    scoring-Sound state (runner_out_recorded o) next refl h off sound
apply_play-Sound state (stolen_base_attempt_recorded a) next h off sound =
    scoring-Sound state (stolen_base_attempt_recorded a) next refl h off sound
apply_play-Sound state (runner_play_recorded p) next h off sound =
    scoring-Sound state (runner_play_recorded p) next refl h off sound
apply_play-Sound state (defensive_substitution_made s) next h off sound =
    roster-Sound state next (substitution-RosterFrame state s next h)
      (λ side. substitution-PitcherPlaced state s next side h (sound.pitchers side))
      (substitution-RunnersSound state s next h off sound.runners) sound
apply_play-Sound state (defensive_alignment_changed a) next h off sound =
    roster-Sound state next (alignment-RosterFrame state a next h)
      (λ side. alignment-PitcherPlaced state a next side h (sound.pitchers side))
      (alignment-RunnersSound state a next h sound.runners) sound
apply_play-Sound state (pitching_change_made c) next h off sound =
    roster-Sound state next (pitching_change-RosterFrame state c next h)
      (λ side. pitching_change-PitcherPlaced state c next side h (sound.pitchers side))
      (pitching_change-RunnersSound state c next h sound.runners) sound
