-- ===== src/EventLog/Summary.antt =====
-- The events lie between the sequences of their summary.
use baseballstattrack.Common.{
  ℕ, ◌≡◌, ◌⊎◌, refl, sym, ap, ◌∙◌, inl, inr, Bool, true, false, ◌&&◌, Option, some, List, [], ◌∷◌,
  length, any, all, leb, ◌==◌, nat_eq, arith, Bool-cases,
}
use baseballstattrack.Common.Sorting.{length-sort_by, all-sort_by, in_order, sort_by-in_order}
use baseballstattrack.Events.State.{AcceptedEvent}
use baseballstattrack.Engine.Corrections.{by_sequence}
use baseballstattrack.EventLog.{
  EventLogSummary, last_event, is_foreign, summarize_ordered, summarize_event_log,
}

abbrev sequence_of : AcceptedEvent → ℕ
sequence_of e = e.sequence

-- Of the account and the game of a summary, and between its sequences.
abbrev pub is_summarized : ℕ → ℕ → ℕ → ℕ → AcceptedEvent → Bool
is_summarized account game first last e =
    e.account_id == account && e.game_id == game && leb first e.sequence && leb e.sequence last

some-injective :
    (s t : EventLogSummary) → ◌≡◌ {A = Option EventLogSummary} (some s) (some t) → s ≡ t
some-injective s t e = cc

last_event-latest :
    (e : AcceptedEvent) (es : List AcceptedEvent)
    → in_order sequence_of (e ∷ es) ≡ true
    → all (λ (f : AcceptedEvent). leb f.sequence (last_event e es).sequence) (e ∷ es) ≡ true
last_event-latest e [] h = ground arith
last_event-latest e (f ∷ fs) h = ground (arith, last_event-latest f fs)

own-summarized :
    (g : AcceptedEvent) (last : ℕ) (es : List AcceptedEvent)
    → any (is_foreign g) es ≡ false
    → all (λ (f : AcceptedEvent). leb g.sequence f.sequence) es ≡ true
    → all (λ (f : AcceptedEvent). leb f.sequence last) es ≡ true
    → all (is_summarized g.account_id g.game_id g.sequence last) es ≡ true
own-summarized g last [] a b c = refl
own-summarized g last (e ∷ es) a b c = ground (arith, own-summarized g last es, a, b, c)

-- What a summary says of a log.
pub record Summarizes (events : List AcceptedEvent) (s : EventLogSummary) : Type 0 where
  pub account : ℕ
  pub game : ℕ
  pub first : ℕ
  pub last : ℕ
  pub of_account : s.account_id ≡ some account
  pub of_game : s.game_id ≡ some game
  pub from_first : s.first_sequence ≡ some first
  pub to_last : s.last_sequence ≡ some last
  pub holds : all (is_summarized account game first last) events ≡ true

summarize_ordered-Summarizes :
    (g : AcceptedEvent) (es : List AcceptedEvent) (s : EventLogSummary)
    → in_order sequence_of (g ∷ es) ≡ true
    → summarize_ordered (g ∷ es) ≡ some s
    → (s.event_count ≡ length (g ∷ es)) × Summarizes (g ∷ es) s
unfolding summarize_ordered
summarize_ordered-Summarizes g es s sorted e = elim (Bool-cases (any (is_foreign g) (g ∷ es))) [
  | inl foreign ↦ absurd (ground (arith, foreign, e))
  | inr own ↦
      let returned = some-injective _ s (rw own at e) in
      let earliest : all (λ (f : AcceptedEvent). leb g.sequence f.sequence) (g ∷ es) ≡ true =
        ground (arith, sorted) in
      rw (← returned) (
        refl,
        record {
          account = g.account_id;
          game = g.game_id;
          first = g.sequence;
          last = (last_event g es).sequence;
          of_account = refl;
          of_game = refl;
          from_first = refl;
          to_last = refl;
          holds =
              own-summarized g (last_event g es).sequence (g ∷ es) own earliest
                (last_event-latest g es sorted);
        },
      )
]

ordered-summary :
    (ordered : List AcceptedEvent) (s : EventLogSummary)
    → in_order sequence_of ordered ≡ true
    → summarize_ordered ordered ≡ some s
    → (s.event_count ≡ length ordered) × ((ordered ≡ []) ⊎ Summarizes ordered s)
unfolding summarize_ordered
ordered-summary [] s sorted e =
    (ap (λ (x : EventLogSummary). x.event_count) (sym (some-injective _ s e)), inl refl)
ordered-summary (g ∷ es) s sorted e =
    let (count, summarized) = summarize_ordered-Summarizes g es s sorted e in
    (count, inr summarized)

-- A summary that is returned counts the events of the log, and, unless the log is empty, every one of
-- them is of its account and its game and has a sequence from its first to its last.
pub summarize_event_log-Summarizes :
    (events : List AcceptedEvent) (s : EventLogSummary)
    → summarize_event_log events ≡ some s
    → (s.event_count ≡ length events) × ((length events ≡ 0) ⊎ Summarizes events s)
unfolding summarize_event_log
summarize_event_log-Summarizes events s e =
    let kept = length-sort_by sequence_of events in
    let (count, either) =
      ordered-summary (by_sequence events) s (sort_by-in_order sequence_of events) e in
    (
      count ∙ kept,
      elim either [
        | inl empty ↦ inl (sym kept ∙ ap length empty)
        | inr m ↦ inr (record {
          account = m.account;
          game = m.game;
          first = m.first;
          last = m.last;
          of_account = m.of_account;
          of_game = m.of_game;
          from_first = m.from_first;
          to_last = m.to_last;
          holds =
              sym (all-sort_by sequence_of (is_summarized m.account m.game m.first m.last) events)
              ∙ m.holds;
        })
      ],
    )
