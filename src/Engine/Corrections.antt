-- ===== src/Engine/Corrections.antt =====
-- `resolveCorrections` and `resolveEffectiveEvents` of src/domain/events/game-engine.ts.
pub mod Suppression
pub mod Validity
use baseballstattrack.Common.{
  ℕ, Bool, true, false, not, ◌&&◌, ◌||◌, Option, none, some, List, [], ◌∷◌, ◌++◌, map, length, leb,
  if◌then◌else◌, is_some, filter, find, sort_by, compact, ◌==◌, nat_eq, contains, distinct, Dict,
  lookup, insert, Result, ok, err, guard, or_raise, ◌>>=◌, ◌>>◌, type_error, EventErrorCode,
}
use baseballstattrack.Events.Enums.{Policy, SchemaVersion}
use baseballstattrack.Events.Equality.{
  side_eq, position_eq, base_eq, origin_eq, cause_eq, outcome_eq, credit_eq, play_type_eq,
  policy_eq, status_eq, destination_eq,
}
use baseballstattrack.Events.State.{AcceptedEvent}
use baseballstattrack.Events.Bodies.{Replacement, Correction, play, correction_applied}
use mathlib.Core.List.{reverse}
use baseballstattrack.Events.Parse.{parse_event_body}

pub record ReplacementSet : Type 0 where
  pub correction_event_id : ℕ
  pub schema_version : SchemaVersion
  pub replacements : List Replacement

pub record CorrectionResolution : Type 0 where
  pub suppressed : List ℕ
  pub replacements_by_target : Dict ℕ ReplacementSet

-- The variables of the loop.
pub record Resolving : Type 0 where
  pub suppressed : List ℕ
  pub target_owner : Dict ℕ ℕ
  pub replacements_by_target : Dict ℕ ReplacementSet
  pub replacement_ids : List ℕ

abbrev pub by_sequence : List AcceptedEvent → List AcceptedEvent
by_sequence = sort_by (λ (e : AcceptedEvent). e.sequence)

abbrev pub event_ids : List AcceptedEvent → List ℕ
event_ids = map (λ (e : AcceptedEvent). e.id)

-- `byId.get(id)`; the identifiers are known to be distinct.
abbrev pub event_by_id : List AcceptedEvent → ℕ → Option AcceptedEvent
event_by_id events target_id = find (λ (e : AcceptedEvent). e.id == target_id) events

abbrev pub is_reversal : Correction → Bool
is_reversal c = c.policy == Policy.reverse_events

abbrev pub is_correction_event : AcceptedEvent → Bool
is_correction_event e = elim e.body [ correction_applied _ ↦ true | _ ↦ false ]

-- `replaceableEventTypes.has(event.eventType)`
abbrev pub is_replaceable : AcceptedEvent → Bool
is_replaceable e = elim e.body [ play _ ↦ true | _ ↦ false ]

unfoldable pub check_target :
    AcceptedEvent → Correction → Resolving → AcceptedEvent → Result (Unit {0})
check_target event c r target = do
  guard
      (leb event.sequence target.sequence
        || not (target.account_id == event.account_id)
        || not (target.game_id == event.game_id))
      EventErrorCode.correction_graph_invalid
  guard (is_correction_event target && not (is_reversal c)) EventErrorCode.correction_graph_invalid
  guard (not (is_reversal c) && not (is_replaceable target)) EventErrorCode.correction_graph_invalid
  guard (is_some (lookup target.id r.target_owner)) EventErrorCode.correction_graph_invalid

-- A `Set.add`: an element that is there already is not added again.
abbrev pub set_add : ℕ → List ℕ → List ℕ
set_add x xs = if contains xs x then xs else xs ++ x ∷ []

abbrev pub own_target : ℕ → ℕ → Resolving → Resolving
own_target event_id target_id r = record r {
  target_owner = insert target_id event_id r.target_owner;
  suppressed = set_add target_id r.suppressed;
}

unfoldable pub claim_targets :
    List AcceptedEvent → AcceptedEvent → Correction → List ℕ → Resolving → Result Resolving
claim_targets events event c [] r = ok r
claim_targets events event c (target_id ∷ rest) r = do
  target ← or_raise (event_by_id events target_id) EventErrorCode.correction_target_missing
  check_target event c r target
  claim_targets events event c rest (own_target event.id target_id r)

unfoldable pub claim_replacement_ids :
    List AcceptedEvent → List Replacement → List ℕ → Result (List ℕ)
claim_replacement_ids events [] ids = ok ids
claim_replacement_ids events (p ∷ rest) ids =
    guard (contains (event_ids events) p.id || contains ids p.id)
      EventErrorCode.correction_graph_invalid
    >> claim_replacement_ids events rest (set_add p.id ids)

-- The earliest of the targets, before which the replacements are replayed.
abbrev pub insertion_target : List AcceptedEvent → Correction → Option ℕ
insertion_target events c =
    elim (by_sequence (compact (map (event_by_id events) c.target_event_ids))) [
      | [] ↦ none
      | e ∷ _ ↦ some e.id
    ]

unfoldable pub add_replacements :
    List AcceptedEvent → AcceptedEvent → Correction → Resolving → Result Resolving
add_replacements events event c r =
    if length c.replacements == 0 then ok r else elim (insertion_target events c) [
      | none ↦ err type_error
      | some target ↦ claim_replacement_ids events c.replacements r.replacement_ids >>= λ ids.
          ok (record r {
            replacement_ids = ids;
            replacements_by_target =
                insert target
                  (record {
                    correction_event_id = event.id;
                    schema_version = event.schema_version;
                    replacements = sort_by (λ (p : Replacement). p.order) c.replacements;
                  })
                  r.replacements_by_target;
          })
    ]

unfoldable pub resolve_correction :
    List AcceptedEvent → AcceptedEvent → Correction → Resolving → Result Resolving
resolve_correction events event c r = do
  parse_event_body (correction_applied c) event.schema_version
  claimed ← claim_targets events event c c.target_event_ids r
  add_replacements events event c claimed

-- One turn of the loop: only corrections that no later one has superseded count.
unfoldable pub resolve_event : List AcceptedEvent → AcceptedEvent → Resolving → Result Resolving
resolve_event events event r = elim event.body [
  | correction_applied c ↦
      if contains r.suppressed event.id then ok r else resolve_correction events event c r
  | _ ↦ ok r
]

unfoldable pub resolve_events :
    List AcceptedEvent → List AcceptedEvent → Resolving → Result Resolving
resolve_events events [] r = ok r
resolve_events events (e ∷ rest) r = do
  next ← resolve_event events e r
  resolve_events events rest next

abbrev pub nothing_resolved : Resolving
nothing_resolved = record {
  suppressed = [];
  target_owner = [];
  replacements_by_target = [];
  replacement_ids = [];
}

unfoldable pub resolve_corrections : List AcceptedEvent → Result CorrectionResolution
resolve_corrections events = do
  let ordered = by_sequence events
  guard (not (distinct (event_ids ordered))) EventErrorCode.correction_graph_invalid
  r ← resolve_events ordered (reverse ordered) nothing_resolved
  ok (record { suppressed = r.suppressed; replacements_by_target = r.replacements_by_target })

unfoldable pub resolve_effective_events : List AcceptedEvent → Result (List AcceptedEvent)
resolve_effective_events events = do
  resolution ← resolve_corrections events
  ok (
      filter (λ (e : AcceptedEvent). not (contains resolution.suppressed e.id))
        (by_sequence events))
