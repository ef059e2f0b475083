-- ===== src/EventLog.antt =====
-- `summarizeEventLog`, src/domain/events/event-log.ts.
pub mod Summary
use baseballstattrack.Common.{
  ℕ, Bool, true, false, not, ◌||◌, Option, none, some, List, [], ◌∷◌, map, length, if◌then◌else◌,
  any, ◌==◌, nat_eq,
}
use baseballstattrack.Events.State.{AcceptedEvent}
use baseballstattrack.Events.Bodies.{
  PlayBody, EventBody, play, game_started, game_suspended, game_resumed, game_completed,
  game_verified, game_reopened, game_abandoned, game_cancelled, correction_applied,
  plate_appearance_recorded, runner_advance_recorded, runner_out_recorded,
  stolen_base_attempt_recorded, runner_play_recorded, defensive_substitution_made,
  defensive_alignment_changed, pitching_change_made,
}
use baseballstattrack.Engine.Corrections.{by_sequence}
use baseballstattrack.Statistics.Plays.{unique}

-- A number for each event type.
abbrev pub event_type : EventBody → ℕ
event_type game_started = 0
event_type (game_suspended _) = 1
event_type game_resumed = 2
event_type (game_completed _ _) = 3
event_type game_verified = 4
event_type (game_reopened _) = 5
event_type (game_abandoned _) = 6
event_type (game_cancelled _) = 7
event_type (correction_applied _) = 8
event_type (play (plate_appearance_recorded _)) = 9
event_type (play (runner_advance_recorded _)) = 10
event_type (play (runner_out_recorded _)) = 11
event_type (play (stolen_base_attempt_recorded _)) = 12
event_type (play (runner_play_recorded _)) = 13
event_type (play (defensive_substitution_made _)) = 14
event_type (play (defensive_alignment_changed _)) = 15
event_type (play (pitching_change_made _)) = 16

-- An identifier is none where the source writes "unassigned".
pub record EventLogSummary : Type 0 where
  pub account_id : Option ℕ
  pub game_id : Option ℕ
  pub event_count : ℕ
  pub first_sequence : Option ℕ
  pub last_sequence : Option ℕ
  pub event_types : List ℕ

abbrev pub last_event : AcceptedEvent → List AcceptedEvent → AcceptedEvent
last_event e [] = e
last_event e (f ∷ rest) = last_event f rest

abbrev pub is_foreign : AcceptedEvent → AcceptedEvent → Bool
is_foreign first event =
    not (event.game_id == first.game_id) || not (event.account_id == first.account_id)

-- The summary of a log in order; none where the source throws.
unfoldable pub summarize_ordered : List AcceptedEvent → Option EventLogSummary
summarize_ordered [] = some (record {
  account_id = none;
  game_id = none;
  event_count = 0;
  first_sequence = none;
  last_sequence = none;
  event_types = [];
})
summarize_ordered (first ∷ rest) =
    if any (is_foreign first) (first ∷ rest)
    then none
    else some (record {
      account_id = some first.account_id;
      game_id = some first.game_id;
      event_count = length (first ∷ rest);
      first_sequence = some first.sequence;
      last_sequence = some ((last_event first rest).sequence);
      event_types = unique (map (λ (e : AcceptedEvent). event_type e.body) (first ∷ rest));
    })

unfoldable pub summarize_event_log : List AcceptedEvent → Option EventLogSummary
unfolding summarize_ordered
summarize_event_log events = summarize_ordered (by_sequence events)
