-- ===== src/Events/Schema.antt =====
-- The semantic checks (`superRefine`, `refine`, bounds) of the schemas in
-- src/domain/events/game-events.ts: each function says that zod raises no issue.
use baseballstattrack.Common.{
  ℕ, Bool, true, false, not, ◌&&◌, ◌||◌, Option, none, some, List, map, length, leb, ltb, is_some,
  filter, any, all, any_indexed, sort_by, get_elem?, ◌==◌, distinct, option_beq, nat_eq,
}
use baseballstattrack.Events.Enums.{
  RunnerDestination, RunnerOrigin, FieldingCreditKind, Outcome, PlayType, Policy, StealTarget,
  StealResult, MovementCause,
}
use baseballstattrack.Events.Equality.{
  credit_eq, outcome_eq, play_type_eq, policy_eq, cause_eq, origin_eq,
}
use baseballstattrack.Events.Bodies.{
  OutDetails, RunnerMovement, FieldingCredit, PlateAppearance, RunnerOut, StolenBaseAttempt,
  RunnerPlay, PlayBody, plate_appearance_recorded, runner_advance_recorded, runner_out_recorded,
  stolen_base_attempt_recorded, runner_play_recorded, defensive_substitution_made,
  defensive_alignment_changed, pitching_change_made, Replacement, Correction, EventBody,
  correction_applied, play,
}

abbrev pub is_home : RunnerDestination → Bool
is_home RunnerDestination.home_plate = true
is_home _ = false

abbrev pub is_out : RunnerDestination → Bool
is_out RunnerDestination.out = true
is_out _ = false

-- `value === true` and `value === false` of an optional flag.
abbrev pub is_true : Option Bool → Bool
is_true (some true) = true
is_true _ = false

abbrev pub is_false : Option Bool → Bool
is_false (some false) = true
is_false _ = false

abbrev pub in_out_range : ℕ → Bool
in_out_range n = leb 1 n && leb n 3

abbrev pub out_details_valid : Option OutDetails → Bool
out_details_valid none = true
out_details_valid (some o) = in_out_range o.out_number

unfoldable pub runner_movement_valid : RunnerMovement → Bool
runner_movement_valid m =
    not (
      is_home m.to
      && (not (is_some m.run_counts) || not (is_some m.rbi_eligible) || is_some m.out_details))
    && not (
        is_out m.to
        && (not (is_some m.out_details)
            || is_some m.run_counts
            || is_some m.rbi_eligible
            || is_some m.earned_run))
    && not (
        not (is_home m.to)
        && not (is_out m.to)
        && (is_some m.out_details
            || is_some m.run_counts
            || is_some m.rbi_eligible
            || is_some m.earned_run))
    && not (is_home m.to && is_false m.run_counts && is_some m.earned_run)
    && out_details_valid m.out_details

abbrev pub is_error_credit : FieldingCredit → Bool
is_error_credit c = c.credit == FieldingCreditKind.error

-- An error type stands on the error credits and only there.
abbrev pub error_types_valid : List FieldingCredit → Bool
error_types_valid credits = not (
    any (λ c. not (is_some c.error_type)) (filter is_error_credit credits)
    || any (λ c. not (is_error_credit c) && is_some c.error_type) credits)

unfoldable pub plate_appearance_valid : PlateAppearance → Bool
unfolding runner_movement_valid
plate_appearance_valid p =
    leb 1 (length p.movements)
    && all runner_movement_valid p.movements
    && not (
        p.outcome == Outcome.reached_on_error
        && length (filter is_error_credit p.fielding_credits) == 0)
    && error_types_valid p.fielding_credits

unfoldable pub runner_advance_valid : RunnerMovement → Bool
unfolding runner_movement_valid
runner_advance_valid m = runner_movement_valid m && not (is_out m.to)

unfoldable pub runner_out_valid : RunnerOut → Bool
runner_out_valid o = in_out_range o.out_number

-- A steal of home that succeeds.
abbrev pub steal_scores : StolenBaseAttempt → Bool
steal_scores s = elim s.result [
  | StealResult.stolen ↦ elim s.to [ StealTarget.steal_home ↦ true | _ ↦ false ]
  | StealResult.caught ↦ false
]

unfoldable pub stolen_base_valid : StolenBaseAttempt → Bool
stolen_base_valid s = not (not (steal_scores s) && is_some s.earned_run)

abbrev pub expected_cause : PlayType → MovementCause
expected_cause PlayType.optional_advance = MovementCause.optional_advance
expected_cause PlayType.error = MovementCause.error
expected_cause PlayType.stolen_base = MovementCause.stolen_base
expected_cause PlayType.caught_stealing = MovementCause.caught_stealing
expected_cause PlayType.pickoff = MovementCause.pickoff
expected_cause PlayType.runner_out = MovementCause.runner_out
expected_cause PlayType.wild_pitch = MovementCause.wild_pitch
expected_cause PlayType.passed_ball = MovementCause.passed_ball

unfoldable pub runner_play_valid : RunnerPlay → Bool
unfolding runner_movement_valid
runner_play_valid p =
    let outs = length (filter (λ m. is_out m.to) p.movements) in
    let errors = filter is_error_credit p.fielding_credits in
    let one_out = p.play_type == PlayType.caught_stealing || p.play_type == PlayType.pickoff in
    let passed_ball = p.play_type == PlayType.passed_ball in
    leb 1 (length p.movements)
    && leb (length p.movements) 4
    && all runner_movement_valid p.movements
    && not (
        any (λ m. m.from == RunnerOrigin.batter || not (m.cause == expected_cause p.play_type))
          p.movements)
    && not (one_out && not (outs == 1))
    && not (p.play_type == PlayType.runner_out && outs == 0)
    && not (not (one_out || p.play_type == PlayType.runner_out) && ltb 0 outs)
    && not (p.play_type == PlayType.error && length errors == 0)
    && not (not (p.play_type == PlayType.error) && ltb 0 (length errors))
    && error_types_valid p.fielding_credits
    && not (passed_ball && not (is_some p.responsible_fielder_id))
    && not (not passed_ball && is_some p.responsible_fielder_id)

unfoldable pub play_body_valid : PlayBody → Bool
unfolding plate_appearance_valid runner_advance_valid runner_out_valid stolen_base_valid
    runner_play_valid
play_body_valid (plate_appearance_recorded p) = plate_appearance_valid p
play_body_valid (runner_advance_recorded m) = runner_advance_valid m
play_body_valid (runner_out_recorded o) = runner_out_valid o
play_body_valid (stolen_base_attempt_recorded s) = stolen_base_valid s
play_body_valid (runner_play_recorded p) = runner_play_valid p
play_body_valid (defensive_substitution_made s) = true
play_body_valid (defensive_alignment_changed a) = leb 1 (length a.assignments)
play_body_valid (pitching_change_made c) = true

-- Unique identifiers and the orders 0, 1, …, in any sequence.
abbrev pub replacement_keys_valid : List Replacement → Bool
replacement_keys_valid replacements =
    distinct (map (λ (r : Replacement). r.id) replacements)
    && distinct (map (λ (r : Replacement). r.order) replacements)
    && not (
        any_indexed (λ order i. not (order == i)) 0
          (sort_by (λ order. order) (map (λ (r : Replacement). r.order) replacements)))

-- The replacements name the targets, in the targets' sequence.
abbrev pub replacements_match : Correction → Bool
replacements_match c =
    length c.replacements == length c.target_event_ids
    && not (
        any_indexed
          (λ (r : Replacement) i.
            not (option_beq (some r.target_event_id) (get_elem? c.target_event_ids i)))
          0 c.replacements)

unfoldable pub correction_valid : Correction → Bool
unfolding play_body_valid
correction_valid c =
    let reversal = c.policy == Policy.reverse_events in
    leb 1 (length c.target_event_ids)
    && all (λ (r : Replacement). play_body_valid r.body) c.replacements
    && distinct c.target_event_ids
    && replacement_keys_valid c.replacements
    && not (reversal && not (length c.replacements == 0))
    && not (not reversal && not (replacements_match c))

unfoldable pub event_body_valid : EventBody → Bool
unfolding play_body_valid correction_valid
event_body_valid (play p) = play_body_valid p
event_body_valid (correction_applied c) = correction_valid c
event_body_valid _ = true
