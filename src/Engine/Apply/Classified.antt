-- ===== src/Engine/Apply/Classified.antt =====
-- What the parser asks of the runs that a play makes: `validateVersionedRunClassifications`.
use baseballstattrack.Common.{
  Bool, true, false, not, ◌&&◌, ◌||◌, ◌>>◌, Option, none, some, List, [], ◌∷◌, ◌++◌, map, ◌≡◌, refl,
  ◌⊎◌, inl, inr, if◌then◌else◌, arith, is_some, any, all, filter, ok, raise, guard, EventErrorCode,
}
use baseballstattrack.Events.Enums.{EarnedRun, SchemaVersion, v1, v2, v3, StealResult, StealTarget}
use baseballstattrack.Events.State.{GameState}
use baseballstattrack.Events.Bodies.{
  RunnerMovement, EventBody, play, PlayBody, plate_appearance_recorded, runner_advance_recorded,
  runner_out_recorded, StolenBaseAttempt, stolen_base_attempt_recorded, runner_play_recorded,
  defensive_substitution_made, defensive_alignment_changed, pitching_change_made,
}
use baseballstattrack.Events.Schema.{event_body_valid}
use baseballstattrack.Events.Parse.{
  parse_event_body, validate_versioned_run_classifications, classifications, is_runner_play, is_v3,
}
use baseballstattrack.Engine.Movement.{run_scores}
use baseballstattrack.Engine.Plays.{steal_movement}
use baseballstattrack.Engine.Apply.Scoring.{play_movements}

-- The version's rule on one run: not classified in version 1, classified from version 2 on.
abbrev pub classified_for : SchemaVersion → Option EarnedRun → Bool
classified_for v1 c = not (is_some c)
classified_for _ c = is_some c

abbrev runs_classified : SchemaVersion → List RunnerMovement → Bool
runs_classified version ms = all (λ m. classified_for version m.earned_run) (filter run_scores ms)

-- What a play may be parsed as: valid, of a kind that the version knows, and with the runs that the
-- engine counts classified by the version's rule.
abbrev pub play_admitted : SchemaVersion → GameState → PlayBody → Bool
play_admitted version state p =
    event_body_valid (play p)
    && (not (is_runner_play p) || is_v3 version)
    && runs_classified version (play_movements state p)

all-map :
    (f : Option EarnedRun → Bool) (ms : List RunnerMovement)
    → all f (map (λ (m : RunnerMovement). m.earned_run) ms ++ [])
      ≡ all (λ (m : RunnerMovement). f m.earned_run) ms
all-map f [] = refl
all-map f (m ∷ ms) = ground (arith, all-map f ms)

any-not :
    (f : Option EarnedRun → Bool) (cs : List (Option EarnedRun))
    → any (λ c. not (f c)) cs ≡ not (all f cs)
any-not f [] = refl
any-not f (c ∷ cs) = ground (arith, any-not f cs)

any-some : (cs : List (Option EarnedRun)) → any is_some cs ≡ not (all (λ c. not (is_some c)) cs)
any-some [] = refl
any-some (none ∷ cs) = any-some cs
any-some (some c ∷ cs) = refl

result_cases : (r : StealResult) → (r ≡ StealResult.stolen) ⊎ (r ≡ StealResult.caught)
result_cases StealResult.stolen = inl refl
result_cases StealResult.caught = inr refl

target_cases :
    (t : StealTarget)
    → (t ≡ StealTarget.steal_second) ⊎ (t ≡ StealTarget.steal_third) ⊎ (t ≡ StealTarget.steal_home)
target_cases StealTarget.steal_second = inl refl
target_cases StealTarget.steal_third = inr (inl refl)
target_cases StealTarget.steal_home = inr (inr refl)

steal-classified :
    (f : Option EarnedRun → Bool) (state : GameState) (s : StolenBaseAttempt)
    → all f (classifications (play (stolen_base_attempt_recorded s)))
      ≡ all
          (λ (m : RunnerMovement). f m.earned_run)
          (filter run_scores (steal_movement state s ∷ []))
unfolding classifications steal_movement
steal-classified f state s = elim (result_cases s.result) [
  | inr caught ↦ ground arith
  | inl stolen ↦ elim (target_cases s.to) [
    | inl second ↦ ground arith
    | inr (inl third) ↦ ground arith
    | inr (inr home) ↦ ground arith
  ]
]

play-classified :
    (f : Option EarnedRun → Bool) (state : GameState) (p : PlayBody)
    → all f (classifications (play p))
      ≡ all (λ (m : RunnerMovement). f m.earned_run) (filter run_scores (play_movements state p))
unfolding classifications
play-classified f state (plate_appearance_recorded p) = all-map f (filter run_scores p.movements)
play-classified f state (runner_advance_recorded m) = all-map f (filter run_scores (m ∷ []))
play-classified f state (runner_out_recorded o) = refl
play-classified f state (stolen_base_attempt_recorded s) = steal-classified f state s
play-classified f state (runner_play_recorded p) = all-map f (filter run_scores p.movements)
play-classified f state (defensive_substitution_made s) = refl
play-classified f state (defensive_alignment_changed a) = refl
play-classified f state (pitching_change_made c) = refl

versioned :
    (body : EventBody) (version : SchemaVersion)
    → validate_versioned_run_classifications body version
      ≡ guard
          (not (all (classified_for version) (classifications body)))
          EventErrorCode.invalid_payload
unfolding validate_versioned_run_classifications
versioned body v1 = rw any-some refl
versioned body v2 = rw (any-not is_some (classifications body)) refl
versioned body v3 = rw (any-not is_some (classifications body)) refl

three_checks :
    (valid runner_play third classified : Bool) (body : EventBody)
    → (guard (not valid) EventErrorCode.invalid_payload
        >> guard (not third && runner_play) EventErrorCode.invalid_payload
        >> guard (not classified) EventErrorCode.invalid_payload
        >> ok body)
      ≡ (if valid && (not runner_play || third) && classified
          then ok body
          else raise EventErrorCode.invalid_payload)
three_checks true true true true body = refl
three_checks true true true false body = refl
three_checks true true false classified body = refl
three_checks true false third true body = ground arith
three_checks true false third false body = ground arith
three_checks false runner_play third classified body = refl

-- Whatever the state, a play is parsed, unchanged, if it is valid, is a runner play only in schema
-- version 3, and every run that the engine counts for it, the run of a steal of home among them, is
-- without a classification in version 1 and has one in versions 2 and 3; otherwise parsing it fails
-- with an invalid payload.
pub parse_event_body-play :
    (state : GameState) (p : PlayBody) (version : SchemaVersion)
    → parse_event_body (play p) version ≡ (
        if play_admitted version state p then ok (play p) else raise EventErrorCode.invalid_payload)
unfolding parse_event_body
parse_event_body-play state p version =
    let same = play-classified (classified_for version) state p in
    rw (versioned, same)
      (three_checks (event_body_valid (play p)) (is_runner_play p) (is_v3 version)
        (runs_classified version (play_movements state p)) (play p))
