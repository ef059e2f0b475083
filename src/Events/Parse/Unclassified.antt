-- ===== src/Events/Parse/Unclassified.antt =====
-- What the version check leaves open: a steal of home inside a correction.
use baseballstattrack.Common.{
  Bool, true, false, none, List, [], ◌∷◌, ◌≡◌, refl, arith, any, all, ok, raise, EventErrorCode,
}
use baseballstattrack.Events.Enums.{v3}
use baseballstattrack.Events.Bodies.{
  play, PlayBody, stolen_base_attempt_recorded, StolenBaseAttempt, Correction, Replacement,
  correction_applied,
}
use baseballstattrack.Events.Schema.{event_body_valid, steal_scores}
use baseballstattrack.Events.Parse.{
  parse_event_body, validate_versioned_run_classifications, classifications, replacement_movements,
  is_runner_play,
}

abbrev pub is_steal : PlayBody → Bool
is_steal (stolen_base_attempt_recorded _) = true
is_steal _ = false

steals-movements :
    (rs : List Replacement)
    → all (λ (r : Replacement). is_steal r.body) rs ≡ true
    → replacement_movements rs ≡ []
steals-movements [] h = refl
steals-movements (r ∷ rs) h = ground (arith, steals-movements rs)

steals-version_3 :
    (rs : List Replacement)
    → all (λ (r : Replacement). is_steal r.body) rs ≡ true
    → any (λ (r : Replacement). is_runner_play r.body) rs ≡ false
steals-version_3 [] h = refl
steals-version_3 (r ∷ rs) h = ground (arith, steals-version_3 rs)

-- At schema version 3 a steal of home without a classification of its run is refused, but a valid
-- correction all of whose replacements are steals is accepted, whatever classifications they carry or
-- lack.
pub unclassified_steal :
    (s : StolenBaseAttempt) (c : Correction)
    → steal_scores s ≡ true
    → s.earned_run ≡ none
    → event_body_valid (correction_applied c) ≡ true
    → all (λ (r : Replacement). is_steal r.body) c.replacements ≡ true
    → (parse_event_body (play (stolen_base_attempt_recorded s)) v3
        ≡ raise EventErrorCode.invalid_payload)
      × (parse_event_body (correction_applied c) v3 ≡ ok (correction_applied c))
unfolding parse_event_body validate_versioned_run_classifications classifications
unclassified_steal s c sc none_given valid steals = (
  ground arith,
  ground (arith, steals-movements c.replacements steals, steals-version_3 c.replacements steals),
)
