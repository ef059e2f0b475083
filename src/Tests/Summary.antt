-- ===== src/Tests/Summary.antt =====
-- The summary of the log of `Game`.
use baseballstattrack.Common.{◌≡◌, ◌⊎◌, refl, some, [], ◌∷◌, nat_eq, length}
use baseballstattrack.EventLog.{EventLogSummary, summarize_ordered, summarize_event_log}
use baseballstattrack.EventLog.Summary.{Summarizes, summarize_event_log-Summarizes}
use baseballstattrack.Tests.Game.{log}

abbrev summary : EventLogSummary
summary = record {
  account_id = some 6;
  game_id = some 7;
  event_count = 3;
  first_sequence = some 1;
  last_sequence = some 3;
  event_types = 0 ∷ 9 ∷ [];
}

summarize_event_log-Summarizes_example :
    (summary.event_count ≡ length log) × ((length log ≡ 0) ⊎ Summarizes log summary)
unfolding summarize_event_log summarize_ordered
summarize_event_log-Summarizes_example = summarize_event_log-Summarizes log summary refl
