-- ===== src/Supervision/Events/Tests.antt =====
-- Supervision events on concrete logs.
use herdr_tools.Base.{
  ◌≡◌, refl, eq_iff, ℕ, true, false, none, List, [], ◌∷◌, take, drop, length, ◌-◌, arith,
}
use herdr_tools.Base.Distinct.{Distinct}
use herdr_tools.Supervision.Events.{
  Event, EventLog, released, blocked_event, high, normal, pending, pending_from, max_events,
  max_returned_events, history, unobserved,
}
use herdr_tools.Supervision.Events.Pending.{
  awaited, drain, pending-oldest, drain-unobserved, drain-awaited,
}
use herdr_tools.Supervision.Events.Window.{
  pushes, empty_history, LogStep, appended, marked, appended_in, log_after, empty_log,
  log_after-newest,
}

abbrev blocked : Event
blocked = record {
  event_id = "sev_a";
  at_ms = 10;
  type = blocked_event;
  priority = high;
  summary = "blocked";
  details = none;
}

abbrev gone : Event
gone = record {
  event_id = "sev_b";
  at_ms = 20;
  type = released;
  priority = normal;
  summary = "released";
  details = none;
}

abbrev two_events : EventLog
two_events = record {
  events =
      record { event = gone; observed = true }
      ∷ record { event = blocked; observed = false }
      ∷ record { event = gone; observed = false }
      ∷ [];
  truncated = 0;
}

pending_one : pending 1 two_events ≡ blocked ∷ []
unfolding pending_from
pending_one = refl

pending-oldest_example :
    pending max_returned_events two_events ≡ take max_returned_events (awaited two_events.events)
pending-oldest_example = pending-oldest max_returned_events two_events (omega arith)

drain-unobserved_example : unobserved (drain 2 two_events).1 ≡ 0
drain-unobserved_example = drain-unobserved 2 two_events (omega arith)

drain-awaited_example : (drain 1 two_events).0 ≡ awaited two_events.events
unfolding awaited Distinct
drain-awaited_example =
    drain-awaited 1 two_events ((ground (arith, eq_iff "sev_b" "sev_a"), tt), (tt, tt))
      (omega arith)

abbrev steps : List LogStep
steps = appended blocked ∷ marked ("sev_a" ∷ []) ∷ appended gone ∷ []

log_after-newest_example :
    (history (log_after steps empty_log)
      ≡ drop (length (appended_in steps) - max_events) (appended_in steps))
    × ((log_after steps empty_log).truncated ≡ length (appended_in steps) - max_events)
log_after-newest_example = log_after-newest steps

abbrev four : List ℕ
four = 1 ∷ 2 ∷ 3 ∷ 4 ∷ []

pushes_runs : (pushes four (empty_history 2)).items ≡ 3 ∷ 4 ∷ []
unfolding pushes
pushes_runs = refl
