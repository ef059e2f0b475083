-- ===== src/Engine/Corrections/Suppression.antt =====
-- Which events the corrections of a log suppress.
use mathlib.Core.List.{Mem, mem-reverse, reverse, mem-cons_self, mem-cons_of_mem}
use baseballstattrack.Common.{
  ℕ, ◌<◌, ◌≡◌, refl, ◌⊎◌, inl, inr, Bool, true, false, ◌||◌, ◌++◌, ◌==◌, or_raise, EventErrorCode,
  guard, not, distinct, err, ◌>>◌, beq_refl, eq_of_beq, some, List, [], ◌∷◌, nat_eq, contains, ok,
  arith, >>=-eq-ok, >>-eq-ok, or_raise-eq-ok, Result, Bool-cases,
}
use baseballstattrack.Events.Equality.{
  side_eq, position_eq, base_eq, origin_eq, cause_eq, outcome_eq, credit_eq, play_type_eq,
  policy_eq, status_eq, destination_eq,
}
use baseballstattrack.Events.State.{AcceptedEvent}
use baseballstattrack.Events.Bodies.{Correction, EventBody, correction_applied}
use baseballstattrack.Events.Parse.{parse_event_body}
use baseballstattrack.Engine.Corrections.{
  CorrectionResolution, Resolving, by_sequence, event_by_id, is_reversal, is_replaceable,
  check_target, own_target, event_ids, is_correction_event, set_add, claim_targets,
  add_replacements, resolve_correction, resolve_event, resolve_events, nothing_resolved,
  resolve_corrections,
}

-- An event of the log that a later correction of the log, of the same game, names as a target.
pub record Claimed (events : List AcceptedEvent) (i : ℕ) : Type 0 where
  pub target : AcceptedEvent
  pub owner : AcceptedEvent
  pub correction : Correction
  pub found : event_by_id events i ≡ some target
  pub among : Mem owner events
  pub body : owner.body ≡ correction_applied correction
  pub listed : contains correction.target_event_ids i ≡ true
  pub earlier : target.sequence < owner.sequence
  pub account : target.account_id ≡ owner.account_id
  pub game : target.game_id ≡ owner.game_id
  pub replaceable : (is_reversal correction || is_replaceable target) ≡ true

-- Every identifier that is suppressed is claimed.
abbrev Claims : List AcceptedEvent → List ℕ → Type 0
Claims events suppressed = (i : ℕ) → contains suppressed i ≡ true → Claimed events i

checked :
    (event : AcceptedEvent) (c : Correction) (r : Resolving) (target : AcceptedEvent)
    → check_target event c r target ≡ ok tt
    → (target.sequence < event.sequence)
      × (target.account_id ≡ event.account_id)
      × (target.game_id ≡ event.game_id)
      × ((is_reversal c || is_replaceable target) ≡ true)
unfolding check_target
checked event c r target h = ground arith

contains-append_one :
    (xs : List ℕ) (x i : ℕ) → contains (xs ++ x ∷ []) i ≡ (contains xs i || x == i)
contains-append_one [] x i = ground arith
contains-append_one (y ∷ xs) x i = ground (arith, contains-append_one xs x i)

contains-set_add :
    (x : ℕ) (xs : List ℕ) (i : ℕ)
    → contains (set_add x xs) i ≡ true
    → (contains xs i || x == i) ≡ true
contains-set_add x xs i h = ground (arith, contains-append_one xs x i)

either : (a b : Bool) → (a || b) ≡ true → (a ≡ true) ⊎ (b ≡ true)
either true b h = inl refl
either false b h = inr h

-- Both computations of a sequence return.
both_return :
    (first : Result (Unit {0})) {r : Resolving} (rest : Result Resolving)
    → (first >> rest) ≡ ok r
    → (first ≡ ok tt) × (rest ≡ ok r)
both_return (ok tt) rest h = (refl, h)
both_return (err e) rest h = cc

new_claim :
    (events : List AcceptedEvent) (event : AcceptedEvent) (c : Correction) (r : Resolving)
    (target : AcceptedEvent) (target_id i : ℕ)
    → Mem event events
    → event.body ≡ correction_applied c
    → contains c.target_event_ids target_id ≡ true
    → event_by_id events target_id ≡ some target
    → check_target event c r target ≡ ok tt
    → target_id ≡ i
    → Claimed events i
new_claim events event c r target target_id i m b listed found passed e =
    let (earlier, account, game, replaceable) = checked event c r target passed in
    record {
      target = target;
      owner = event;
      correction = c;
      found = rw (← e) found;
      among = m;
      body = b;
      listed = rw (← e) listed;
      earlier = earlier;
      account = account;
      game = game;
      replaceable = replaceable;
    }

claim_targets-Claims :
    (events : List AcceptedEvent) (event : AcceptedEvent) (c : Correction) (targets : List ℕ)
    (r next : Resolving)
    → Mem event events
    → event.body ≡ correction_applied c
    → ((i : ℕ) → contains targets i ≡ true → contains c.target_event_ids i ≡ true)
    → Claims events r.suppressed
    → claim_targets events event c targets r ≡ ok next
    → Claims events next.suppressed
unfolding claim_targets
claim_targets-Claims events event c [] r next m b sub claims h =
    λ i s. claims i (ground (arith, s, h))
claim_targets-Claims events event c (target_id ∷ rest) r next m b sub claims h =
    let (target, one, k) =
      >>=-eq-ok (or_raise (event_by_id events target_id) EventErrorCode.correction_target_missing) _
        h in
    let (passed, k') = both_return (check_target event c r target) _ k in
    claim_targets-Claims events event c rest (own_target event.id target_id r) next m b
      (λ i s. sub i (ground (arith, s)))
      (λ i s.
        elim (either (contains r.suppressed i) (target_id == i)
          (contains-set_add target_id r.suppressed i s)) [
            | inl old ↦ claims i old
            | inr new ↦
                new_claim events event c r target target_id i m b
                  (sub target_id (ground (arith, beq_refl target_id)))
                  (or_raise-eq-ok (event_by_id events target_id) _ one) passed
                  (eq_of_beq target_id i new)
          ])
      k'

add_replacements-suppressed :
    (events : List AcceptedEvent) (event : AcceptedEvent) (c : Correction) (r next : Resolving)
    → add_replacements events event c r ≡ ok next
    → next.suppressed ≡ r.suppressed
unfolding add_replacements
add_replacements-suppressed events event c r next h = ground arith

pub correction_or_not :
    (event : AcceptedEvent)
    → ((c : Correction) × (event.body ≡ correction_applied c)) ⊎ (is_correction_event event ≡ false)
correction_or_not event = by_body event.body refl
  where
    by_body :
        (body : EventBody)
        → event.body ≡ body
        → ((c : Correction) × (event.body ≡ correction_applied c))
          ⊎ (is_correction_event event ≡ false)
    by_body (correction_applied c) b = inl (c, b)
    by_body body b = inr (ground arith)

-- A correction that was superseded changes nothing, and any other is resolved.
pub resolved_correction :
    (events : List AcceptedEvent) (event : AcceptedEvent) (c : Correction) (r next : Resolving)
    → event.body ≡ correction_applied c
    → resolve_event events event r ≡ ok next
    → (next ≡ r) ⊎ (resolve_correction events event c r ≡ ok next)
unfolding resolve_event
resolved_correction events event c r next b h = elim (Bool-cases (contains r.suppressed event.id)) [
  | inl superseded ↦ inl (ground arith)
  | inr active ↦ inr (ground arith)
]

resolve_correction-Claims :
    (events : List AcceptedEvent) (event : AcceptedEvent) (c : Correction) (r next : Resolving)
    → Mem event events
    → event.body ≡ correction_applied c
    → Claims events r.suppressed
    → resolve_correction events event c r ≡ ok next
    → Claims events next.suppressed
unfolding resolve_correction
resolve_correction-Claims events event c r next m b claims h =
    let k = >>-eq-ok (parse_event_body (correction_applied c) event.schema_version) _ h in
    let (claimed, one, added) = >>=-eq-ok (claim_targets events event c c.target_event_ids r) _ k in
    let now =
      claim_targets-Claims events event c c.target_event_ids r claimed m b (λ i s. s) claims one in
    rw (add_replacements-suppressed events event c claimed next added) now

resolve_event-Claims :
    (events : List AcceptedEvent) (event : AcceptedEvent) (r next : Resolving)
    → Mem event events
    → Claims events r.suppressed
    → resolve_event events event r ≡ ok next
    → Claims events next.suppressed
unfolding resolve_event
resolve_event-Claims events event r next m claims h = elim (correction_or_not event) [
  | inl (c, b) ↦ elim (resolved_correction events event c r next b h) [
    | inl same ↦ rw same claims
    | inr done ↦ resolve_correction-Claims events event c r next m b claims done
  ]
  | inr other ↦ λ i s. claims i (ground (arith, other, h, s))
]

resolve_events-Claims :
    (events es : List AcceptedEvent) (r next : Resolving)
    → ((e : AcceptedEvent) → Mem e es → Mem e events)
    → Claims events r.suppressed
    → resolve_events events es r ≡ ok next
    → Claims events next.suppressed
unfolding resolve_events
resolve_events-Claims events [] r next sub claims h = λ i s. claims i (ground (arith, s, h))
resolve_events-Claims events (e ∷ es) r next sub claims h =
    let (middle, one, rest) = >>=-eq-ok (resolve_event events e r) _ h in
    resolve_events-Claims events es middle next (λ x m. sub x (mem-cons_of_mem e m))
      (resolve_event-Claims events e r middle (sub e mem-cons_self) claims one) rest

-- What the corrections of a log suppress are events of the log. Each is named as a target by a
-- correction of the log, of the same account and game, that has a greater sequence number, and that
-- is a reversal unless the event is one of those that may be replaced.
pub resolve_corrections-Claimed :
    (events : List AcceptedEvent) (resolution : CorrectionResolution) (i : ℕ)
    → resolve_corrections events ≡ ok resolution
    → contains resolution.suppressed i ≡ true
    → Claimed (by_sequence events) i
unfolding resolve_corrections
resolve_corrections-Claimed events resolution i h s =
    let ordered = by_sequence events in
    let k =
      >>-eq-ok (guard (not (distinct (event_ids ordered))) EventErrorCode.correction_graph_invalid)
        _ h in
    let (r, resolved, made) =
      >>=-eq-ok (resolve_events ordered (reverse ordered) nothing_resolved) _ k in
    resolve_events-Claims ordered (reverse ordered) nothing_resolved r (λ e m. mem-reverse.0 m)
      (λ i none_there. cc) resolved i (ground (arith, made, s))
