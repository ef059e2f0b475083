-- ===== src/Engine/Corrections/Validity.antt =====
-- The replacements that `resolveCorrections` returns have passed their schema.
use mathlib.Core.List.{reverse}
use baseballstattrack.Common.{
  ℕ, ◌≡◌, ◌∙◌, inl, inr, Bool, true, not, some, List, [], ◌∷◌, length, all, ◌==◌, nat_eq, distinct,
  Dict, lookup, insert, Result, ok, guard, or_raise, ◌>>◌, EventErrorCode, arith, Bool-cases,
  Option-cases, >>=-eq-ok, >>-eq-ok, ok-injective, lookup-insert,
}
use baseballstattrack.Common.Sorting.{all-sort_by}
use baseballstattrack.Events.State.{AcceptedEvent}
use baseballstattrack.Events.Bodies.{Replacement, Correction, correction_applied}
use baseballstattrack.Events.Schema.{play_body_valid, correction_valid, event_body_valid}
use baseballstattrack.Events.Parse.{parse_event_body}
use baseballstattrack.Engine.Corrections.{
  ReplacementSet, CorrectionResolution, Resolving, by_sequence, event_ids, event_by_id,
  check_target, own_target, claim_targets, claim_replacement_ids, insertion_target,
  add_replacements, resolve_correction, resolve_event, resolve_events, nothing_resolved,
  resolve_corrections,
}
use baseballstattrack.Engine.Corrections.Suppression.{correction_or_not, resolved_correction}

abbrev pub all_valid : List Replacement → Bool
all_valid rs = all (λ (r : Replacement). play_body_valid r.body) rs

-- Every set of replacements has passed its schema.
abbrev pub SetsValid : Dict ℕ ReplacementSet → Type 0
SetsValid d =
    (i : ℕ) (set : ReplacementSet) → lookup i d ≡ some set → all_valid set.replacements ≡ true

claim_targets-sets :
    (events : List AcceptedEvent) (event : AcceptedEvent) (c : Correction) (targets : List ℕ)
    (r next : Resolving)
    → claim_targets events event c targets r ≡ ok next
    → next.replacements_by_target ≡ r.replacements_by_target
unfolding claim_targets
claim_targets-sets events event c [] r next h = ground arith
claim_targets-sets events event c (target_id ∷ rest) r next h =
    let (target, _, k) =
      >>=-eq-ok (or_raise (event_by_id events target_id) EventErrorCode.correction_target_missing) _
        h in
    let k' = >>-eq-ok (check_target event c r target) _ k in
    claim_targets-sets events event c rest (own_target event.id target_id r) next k'

insert-SetsValid :
    (k : ℕ) (set : ReplacementSet) (d : Dict ℕ ReplacementSet)
    → all_valid set.replacements ≡ true
    → SetsValid d
    → SetsValid (insert k set d)
insert-SetsValid k set d valid sets i found h = elim (Bool-cases (k == i)) [
  | inl same ↦ ground (arith, lookup-insert i k set d)
  | inr other ↦ sets i found (ground (arith, lookup-insert i k set d))
]

add_replacements-SetsValid :
    (events : List AcceptedEvent) (event : AcceptedEvent) (c : Correction) (r next : Resolving)
    → all_valid c.replacements ≡ true
    → SetsValid r.replacements_by_target
    → add_replacements events event c r ≡ ok next
    → SetsValid next.replacements_by_target
unfolding add_replacements
add_replacements-SetsValid events event c r next valid sets h =
    elim (Bool-cases (length c.replacements == 0)) [
      | inl none_given ↦ λ i set found. sets i set (ground (arith, none_given, h, found))
      | inr given ↦ elim (Option-cases (insertion_target events c)) [
        | inl no_target ↦ absurd (ground (arith, given, no_target, h))
        | inr (target, at) ↦
            let opened = rw (given, at) at h in
            let (ids, _, done) =
              >>=-eq-ok (claim_replacement_ids events c.replacements r.replacement_ids) _ opened in
            rw (← ok-injective _ next done) (
              insert-SetsValid target _ r.replacements_by_target
                (all-sort_by (λ (p : Replacement). p.order)
                    (λ (p : Replacement). play_body_valid p.body) c.replacements
                  ∙ valid)
                sets)
      ]
    ]

parsed-valid :
    (c : Correction) (event : AcceptedEvent) (k : Result Resolving) {next : Resolving}
    → (parse_event_body (correction_applied c) event.schema_version >> k) ≡ ok next
    → all_valid c.replacements ≡ true
unfolding parse_event_body event_body_valid correction_valid
parsed-valid c event k h = ground arith

resolve_event-SetsValid :
    (events : List AcceptedEvent) (event : AcceptedEvent) (r next : Resolving)
    → SetsValid r.replacements_by_target
    → resolve_event events event r ≡ ok next
    → SetsValid next.replacements_by_target
unfolding resolve_event resolve_correction
resolve_event-SetsValid events event r next sets h = elim (correction_or_not event) [
  | inl (c, b) ↦ elim (resolved_correction events event c r next b h) [
    | inl same ↦ rw same sets
    | inr done ↦
        let valid = parsed-valid c event _ done in
        let k = >>-eq-ok (parse_event_body (correction_applied c) event.schema_version) _ done in
        let (claimed, one, added) =
          >>=-eq-ok (claim_targets events event c c.target_event_ids r) _ k in
        add_replacements-SetsValid events event c claimed next valid
          (rw (claim_targets-sets events event c c.target_event_ids r claimed one) sets) added
  ]
  | inr other ↦ λ i set found. sets i set (ground (arith, other, h, found))
]

resolve_events-SetsValid :
    (events es : List AcceptedEvent) (r next : Resolving)
    → SetsValid r.replacements_by_target
    → resolve_events events es r ≡ ok next
    → SetsValid next.replacements_by_target
unfolding resolve_events
resolve_events-SetsValid events [] r next sets h =
    λ i set found. sets i set (ground (arith, h, found))
resolve_events-SetsValid events (e ∷ es) r next sets h =
    let (middle, one, rest) = >>=-eq-ok (resolve_event events e r) _ h in
    resolve_events-SetsValid events es middle next
      (resolve_event-SetsValid events e r middle sets one) rest

pub resolve_corrections-SetsValid :
    (events : List AcceptedEvent) (resolution : CorrectionResolution)
    → resolve_corrections events ≡ ok resolution
    → SetsValid resolution.replacements_by_target
unfolding resolve_corrections
resolve_corrections-SetsValid events resolution h i set found =
    let ordered = by_sequence events in
    let k =
      >>-eq-ok (guard (not (distinct (event_ids ordered))) EventErrorCode.correction_graph_invalid)
        _ h in
    let (r, resolved, made) =
      >>=-eq-ok (resolve_events ordered (reverse ordered) nothing_resolved) _ k in
    resolve_events-SetsValid ordered (reverse ordered) nothing_resolved r (λ j s none_there. cc)
      resolved i set (ground (arith, made, found))
