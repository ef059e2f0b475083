-- ===== src/Engine/Replay/Reordering.antt =====
-- A replay does not depend on the order in which the events are stored.
use baseballstattrack.Common.{◌≡◌, ◌≢◌, refl, ◌∙◌, List, ◌∷◌, nat_eq}
use baseballstattrack.Events.Equality.{
  side_eq, position_eq, base_eq, origin_eq, cause_eq, outcome_eq, credit_eq, play_type_eq,
  policy_eq, status_eq, destination_eq,
}
use baseballstattrack.Events.State.{AcceptedEvent, AcceptedSetup}
use baseballstattrack.Common.Sorting.{insert_by_comm}
use baseballstattrack.Engine.Corrections.{by_sequence}
use baseballstattrack.Engine.Replay.{replay_game_timeline}

-- One log is the other with neighbours exchanged, whose sequence numbers differ.
pub data Reordered : List AcceptedEvent → List AcceptedEvent → Type 0 where
  same : {es : List AcceptedEvent} → Reordered es es
  keep :
      {es fs : List AcceptedEvent} (e : AcceptedEvent)
      → Reordered es fs
      → Reordered (e ∷ es) (e ∷ fs)
  swap :
      {es : List AcceptedEvent} (e f : AcceptedEvent)
      → e.sequence ≢ f.sequence
      → Reordered (e ∷ f ∷ es) (f ∷ e ∷ es)
  trans : {es fs gs : List AcceptedEvent} → Reordered es fs → Reordered fs gs → Reordered es gs

pub by_sequence-Reordered :
    {es fs : List AcceptedEvent} → Reordered es fs → by_sequence es ≡ by_sequence fs
by_sequence-Reordered same = refl
by_sequence-Reordered (keep e r) = rw (by_sequence-Reordered r)
by_sequence-Reordered (swap {es = rest} e f h) =
    insert_by_comm (λ (x : AcceptedEvent). x.sequence) e f (by_sequence rest) h
by_sequence-Reordered (trans r q) = by_sequence-Reordered r ∙ by_sequence-Reordered q

-- Two logs of the same events, whose sequence numbers differ, are replayed alike: the same state
-- and steps, or the same error.
pub replay_game_timeline-Reordered :
    (setup : AcceptedSetup) (es fs : List AcceptedEvent)
    → Reordered es fs
    → replay_game_timeline setup es ≡ replay_game_timeline setup fs
unfolding replay_game_timeline
replay_game_timeline-Reordered setup es fs r = rw (by_sequence-Reordered r)
