-- ===== src/Engine/Apply/Results.antt =====
-- What the plays do to the score, the outs and the half-inning.
use baseballstattrack.Common.{
  ℕ, ◌+◌, ◌≤◌, ◌≡◌, ◌⊎◌, refl, ap, ◌∙◌, inl, inr, Bool, true, false, List, [], ◌∷◌, length, any,
  nat_eq, ok, arith, Bool-cases,
}
use baseballstattrack.Events.Enums.{GameSide}
use baseballstattrack.Events.Equality.{
  side_eq, position_eq, base_eq, origin_eq, cause_eq, outcome_eq, credit_eq, play_type_eq,
  policy_eq, status_eq, destination_eq,
}
use baseballstattrack.Events.State.{at_side, empty_bases, GameState}
use baseballstattrack.Events.Bodies.{
  RunnerMovement, PlayBody, plate_appearance_recorded, runner_advance_recorded, runner_out_recorded,
  stolen_base_attempt_recorded, runner_play_recorded, defensive_substitution_made,
  defensive_alignment_changed, pitching_change_made,
}
use baseballstattrack.Engine.Innings.{batting_side, fielding_side, end_half_inning}
use baseballstattrack.Engine.Innings.Outs.{finished-score}
use baseballstattrack.Engine.Movement.{write_movements, ends_by_force, run_scores, out_movements}
use baseballstattrack.Engine.Movement.Effects.{write_movements-SameFrame}
use baseballstattrack.Engine.Movement.Runs.{counted_runs, credited, score-write_movements}
use baseballstattrack.Engine.Plays.Resolution.{advanced_if}
use baseballstattrack.Engine.Roster.Frame.{
  RosterFrame, substitution-RosterFrame, alignment-RosterFrame, pitching_change-RosterFrame,
}
use baseballstattrack.Engine.Apply.{apply_play}
use baseballstattrack.Engine.Apply.Scoring.{
  play_movements, is_scoring, ends_turn, apply_play-Resolved, resolved, Resolved-next,
  advanced_if-fields,
}

resolved-score :
    (state : GameState) (turn : Bool) (ms : List RunnerMovement) (side : GameSide)
    → at_side (resolved turn state ms).score side
      ≡ at_side state.score side + credited state side (counted_runs ms)
unfolding resolved
resolved-score state turn ms side =
    ap (λ s. at_side s side)
      (finished-score (advanced_if turn (write_movements state ms)) (length (out_movements ms)))
    ∙ ap (λ s. at_side s side) (advanced_if-fields turn (write_movements state ms)).1
    ∙ score-write_movements state ms side

pub roster-RosterFrame :
    (state : GameState) (p : PlayBody) (next : GameState)
    → is_scoring p ≡ false
    → apply_play state p ≡ ok next
    → RosterFrame state next
unfolding apply_play
roster-RosterFrame state (defensive_substitution_made s) next n h =
    substitution-RosterFrame state s next h
roster-RosterFrame state (defensive_alignment_changed a) next n h =
    alignment-RosterFrame state a next h
roster-RosterFrame state (pitching_change_made c) next n h =
    pitching_change-RosterFrame state c next h
roster-RosterFrame state (plate_appearance_recorded _) next n h = cc
roster-RosterFrame state (runner_advance_recorded _) next n h = cc
roster-RosterFrame state (runner_out_recorded _) next n h = cc
roster-RosterFrame state (stolen_base_attempt_recorded _) next n h = cc
roster-RosterFrame state (runner_play_recorded _) next n h = cc

roster-movements :
    (state : GameState) (p : PlayBody) → is_scoring p ≡ false → play_movements state p ≡ []
roster-movements state p h = ground arith

-- A play that is accepted adds to the batting side's score one run for each of its movements home
-- whose run counts, and nothing to the other side's.
pub apply_play-score :
    (state : GameState) (p : PlayBody) (next : GameState) (side : GameSide)
    → apply_play state p ≡ ok next
    → at_side next.score side
      ≡ at_side state.score side + credited state side (counted_runs (play_movements state p))
apply_play-score state p next side h = elim (Bool-cases (is_scoring p)) [
  | inl s ↦
      let (_, _, e) =
        Resolved-next state (ends_turn p) (play_movements state p) next
          (apply_play-Resolved state p s h) in
      rw e (resolved-score state (ends_turn p) (play_movements state p) side)
  | inr n ↦
      rw (roster-movements state p n, (roster-RosterFrame state p next n h).score) (ground arith)
]

counted_runs-zero : (ms : List RunnerMovement) → any run_scores ms ≡ false → counted_runs ms ≡ 0
counted_runs-zero [] h = refl
counted_runs-zero (m ∷ ms) h = ground (arith, counted_runs-zero ms)

-- When the third out of the inning is a force out, an accepted play leaves the score of both sides
-- as it is.
pub apply_play-force_out :
    (state : GameState) (p : PlayBody) (next : GameState) (side : GameSide)
    → ends_by_force (play_movements state p) ≡ true
    → apply_play state p ≡ ok next
    → at_side next.score side ≡ at_side state.score side
apply_play-force_out state p next side f h = elim (Bool-cases (is_scoring p)) [
  | inl s ↦
      let (m, _, _) =
        Resolved-next state (ends_turn p) (play_movements state p) next
          (apply_play-Resolved state p s h) in
      let none_scores : any run_scores (play_movements state p) ≡ false =
        ground (arith, m.no_forced_run) in
      ground (
        arith,
        apply_play-score state p next side h,
        counted_runs-zero (play_movements state p) none_scores,
      )
  | inr n ↦ ground (arith, (roster-RosterFrame state p next n h).score)
]

below_or_at : (n : ℕ) → n ≤ 3 → (n ≤ 2) ⊎ (n ≡ 3)
below_or_at n h = omega arith

-- What the outs of a play come to: the half-inning goes on, or its third out ends it.
abbrev pub OutsCounted : GameState → ℕ → GameState → Type 0
OutsCounted state total next =
    (total ≤ 2) × (next.outs ≡ total) × (next.half ≡ state.half) × (next.inning ≡ state.inning)
    ⊎ (total ≡ 3)
      × (next.outs ≡ 0)
      × (next.bases ≡ empty_bases)
      × (batting_side next ≡ fielding_side state)

pub resolved-OutsCounted :
    (state : GameState) (turn : Bool) (ms : List RunnerMovement)
    → state.outs + length (out_movements ms) ≤ 3
    → OutsCounted state (state.outs + length (out_movements ms)) (resolved turn state ms)
unfolding resolved end_half_inning batting_side fielding_side
resolved-OutsCounted state turn ms bound =
    let frame = write_movements-SameFrame state ms in
    let same_outs = frame.outs in
    let same_half = frame.half in
    let same_inning = frame.inning in
    elim (below_or_at (state.outs + length (out_movements ms)) bound) [
      | inl h ↦ inl (h, ground arith, ground arith, ground arith)
      | inr h ↦ inr (h, ground arith, ground arith, ground arith)
    ]

pub OutsCounted-outs :
    (state : GameState) (total : ℕ) (next : GameState)
    → OutsCounted state total next
    → next.outs ≤ 2
OutsCounted-outs state total next (inl (h, e, _, _)) = omega (arith, h, e)
OutsCounted-outs state total next (inr (_, e, _, _)) = omega (arith, e)

-- The outs of a scoring play that is accepted are added to those of the half-inning, at most to
-- three: with fewer than three the half-inning goes on with that count, and the third out starts the
-- count anew with the bases empty and the other side at bat.
pub apply_play-outs :
    (state : GameState) (p : PlayBody) (next : GameState)
    → is_scoring p ≡ true
    → apply_play state p ≡ ok next
    → OutsCounted state (state.outs + length (out_movements (play_movements state p))) next
apply_play-outs state p next s h =
    let ms = play_movements state p in
    let (_, bound, e) =
      Resolved-next state (ends_turn p) ms next (apply_play-Resolved state p s h) in
    rw e (resolved-OutsCounted state (ends_turn p) ms bound)
