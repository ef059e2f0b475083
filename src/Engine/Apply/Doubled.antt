-- ===== src/Engine/Apply/Doubled.antt =====
-- What the checks of a plate appearance leave open: a batter who stands on base already.
use baseballstattrack.Common.{
  ◌≤◌, ◌≡◌, ◌≢◌, refl, ap, ◌∙◌, true, some, List, [], ◌∷◌, if◌then◌else◌, ◌==◌, nat_eq, ok, arith,
}
use baseballstattrack.Events.Enums.{Base, RunnerOrigin, RunnerDestination}
use baseballstattrack.Events.Equality.{
  side_eq, position_eq, base_eq, origin_eq, cause_eq, outcome_eq, credit_eq, play_type_eq,
  policy_eq, status_eq, destination_eq,
}
use baseballstattrack.Events.State.{at_base, GameState}
use baseballstattrack.Events.Bodies.{RunnerMovement, PlateAppearance, plate_appearance_recorded}
use baseballstattrack.Common.{beq_refl}
use baseballstattrack.Events.Equality.{base_beq_iff}
use baseballstattrack.Engine.Movement.{write_movements, out_movements}
use baseballstattrack.Engine.Movement.Integrity.{RunnersSound, write_movements-base}
use baseballstattrack.Engine.Movement.Effects.{write_movements-SameFrame}
use baseballstattrack.Engine.Apply.{apply_play}
use baseballstattrack.Engine.Apply.Scoring.{apply_play-Resolved, resolved, Resolved-next}

safe-bases :
    (state : GameState) (ms : List RunnerMovement)
    → state.outs ≤ 2
    → out_movements ms ≡ []
    → (resolved true state ms).bases ≡ (write_movements state ms).bases
unfolding resolved
safe-bases state ms o h = ground (arith, (write_movements-SameFrame state ms).outs)

-- The bases after the one movement of a batter.
one_movement :
    (state : GameState) (m : RunnerMovement) (b x : Base)
    → m.from ≡ RunnerOrigin.batter
    → m.to ≡ RunnerDestination.safe_at b
    → at_base (write_movements state (m ∷ [])).bases x
      ≡ (if b == x then some m.runner_id else at_base state.bases x)
one_movement state m b x plate to =
    ground (arith, write_movements-base state (m ∷ []) x, base_beq_iff b x)

-- A batter who stands on a base, and is put on another base by the only movement of the play, with at
-- most two outs before it, stands on both once the plate appearance is accepted, and the runners are
-- unsound.
pub batter_on_two_bases :
    (state : GameState) (p : PlateAppearance) (m : RunnerMovement) (next : GameState) (b c : Base)
    → state.outs ≤ 2
    → p.movements ≡ m ∷ []
    → m.from ≡ RunnerOrigin.batter
    → m.to ≡ RunnerDestination.safe_at b
    → at_base state.bases c ≡ some m.runner_id
    → b ≢ c
    → apply_play state (plate_appearance_recorded p) ≡ ok next
    → (at_base next.bases b ≡ some m.runner_id)
      × (at_base next.bases c ≡ some m.runner_id)
      × ¬ RunnersSound next
batter_on_two_bases state p m next b c o only plate to there ne h =
    let r = apply_play-Resolved state (plate_appearance_recorded p) refl h in
    let (_, _, e) = Resolved-next state true p.movements next r in
    let no_outs : out_movements (m ∷ []) ≡ [] = ground arith in
    let bases : next.bases ≡ (write_movements state (m ∷ [])).bases =
      ap (λ (s : GameState). s.bases) e
      ∙ ap (λ ms. (resolved true state ms).bases) only
      ∙ safe-bases state (m ∷ []) o no_outs in
    let here : at_base next.bases b ≡ some m.runner_id =
      ap (λ s. at_base s b) bases ∙ ground (arith, one_movement state m b b plate to, beq_refl b) in
    let also : at_base next.bases c ≡ some m.runner_id =
      ap (λ s. at_base s c) bases
      ∙ ground (arith, one_movement state m b c plate to, base_beq_iff b c) in
    (here, also, λ sound. ne (sound.apart b c m.runner_id here also))
