-- ===== src/Supervision/Events.antt =====
-- src/supervision/events.ts: the material events of a supervisor, their log, and bounded histories.
pub mod Window
pub mod Pending
mod Tests
use herdr_tools.Base.{
  ℕ, zero, suc, ◌+◌, ◌-◌, Bool, true, false, not, ◌||◌, String, ◌==◌, List, [], ◌∷◌, ◌++◌, Option,
  none, some, any, keep, length, leb, ltb, map, is_identifier, if◌then◌else◌,
}
use herdr_tools.Base.Dict.{Dict, put}
use herdr_tools.Base.Joined.{text_append}
use herdr_tools.Supervision.Protocol.{AgentStatus, idle, working, blocked, done, unknown_status}

-- `SUPERVISION_EVENT_TYPES`.
pub data EventType : Type 0 where
  work_cycle_completed provider_limit blocked_event reviewer_attention reviewer_degraded
        reviewer_recovered identity_replaced identity_lost released pane_closed_event
        monitor_degraded monitor_recovered reconciliation_degraded reconciliation_recovered
        evidence_gap :
      EventType

pub data Priority : Type 0 where
  normal high : Priority

-- A detail is a text, or a number or truth value that is kept as it is.
pub data Detail : Type 0 where
  detail_text : String → Detail
  detail_number : ℕ → Detail
  detail_flag : Bool → Detail

pub record Event : Type 0 where
  pub event_id : String
  pub at_ms : ℕ
  pub type : EventType
  pub priority : Priority
  pub summary : String
  pub details : Option (Dict Detail)

-- `isSettlingEvent`.
unfoldable pub is_settling_event : EventType → Bool
is_settling_event identity_replaced = true
is_settling_event identity_lost = true
is_settling_event released = true
is_settling_event pane_closed_event = true
is_settling_event _ = false

-- `eventPriority`.
unfoldable pub event_priority : EventType → Priority
event_priority provider_limit = high
event_priority blocked_event = high
event_priority reviewer_attention = high
event_priority identity_replaced = high
event_priority identity_lost = high
event_priority evidence_gap = high
event_priority _ = normal

-- `materialTransitionEvent`.
unfoldable pub material_transition_event : AgentStatus → AgentStatus → Option EventType
material_transition_event from blocked = some blocked_event
material_transition_event from done = some work_cycle_completed
material_transition_event working idle = some work_cycle_completed
material_transition_event _ idle = none
material_transition_event from working = none
material_transition_event from unknown_status = none

abbrev pub max_events : ℕ
max_events = 48

abbrev pub max_returned_events : ℕ
max_returned_events = 16

abbrev summary_bytes : ℕ
summary_bytes = 500

abbrev detail_field_bytes : ℕ
detail_field_bytes = 256

-- The loop that drops the oldest items while there are too many, and counts them.
unfoldable pub trim {ℓ} : {A : Type ℓ} → ℕ → List A → ℕ → List A × ℕ
trim limit [] dropped = ([], dropped)
trim limit (x ∷ xs) dropped =
    let rest = trim limit xs (dropped + 1) in
    if ltb limit (length (x ∷ xs)) then rest else (x ∷ xs, dropped)

-- `BoundedHistory`.
pub record BoundedHistory {ℓ} (A : Type ℓ) : Type ℓ where
  pub limit : ℕ
  pub items : List A
  pub dropped : ℕ

unfoldable pub push {ℓ} : {A : Type ℓ} → A → BoundedHistory A → BoundedHistory A
unfolding trim
push item h =
    let (items, dropped) = trim h.limit (h.items ++ item ∷ []) h.dropped in
    record h { items = items; dropped = dropped }

-- `last`.
unfoldable pub last {ℓ} : {A : Type ℓ} → List A → Option A
last [] = none
last (x ∷ []) = some x
last (x ∷ y ∷ ys) = last (y ∷ ys)

pub record Logged : Type 0 where
  pub event : Event
  pub observed : Bool

-- The state of `SupervisionEventLog`.
pub record EventLog : Type 0 where
  pub events : List Logged
  pub truncated : ℕ

-- `boundedText` of the job registry, by value and limit in bytes.
pub record Texts : Type 0 where
  pub bounded : String → ℕ → String

abbrev bounded_detail : Texts → Detail → Detail
bounded_detail t (detail_text s) = detail_text (t.bounded s detail_field_bytes)
bounded_detail t d = d

-- `boundedDetails`: keys that are equal once they are bounded give one field, of the last value.
unfoldable pub bounded_details : Texts → Dict Detail → Dict Detail → Dict Detail
unfolding put
bounded_details t [] out = out
bounded_details t ((key, value) ∷ rest) out =
    bounded_details t rest (put (t.bounded key 64) (bounded_detail t value) out)

abbrev details_of : Texts → Option (Dict Detail) → Option (Dict Detail)
details_of t none = none
details_of t (some d) = some (bounded_details t d [])

-- `createSupervisionEventId`, for what the factory gives; none is a throw.
unfoldable pub create_event_id : String → Option String
unfolding is_identifier text_append
create_event_id value = if is_identifier value then some (text_append "sev_" value) else none

abbrev pub new_event : Texts → String → EventType → ℕ → String → Option (Dict Detail) → Event
new_event t id type at summary details = record {
  event_id = id;
  at_ms = at;
  type = type;
  priority = event_priority type;
  summary = t.bounded summary summary_bytes;
  details = details_of t details;
}

unfoldable pub append_event : Event → EventLog → EventLog
unfolding trim
append_event e log =
    let (events, truncated) =
      trim max_events (log.events ++ record { event = e; observed = false } ∷ []) log.truncated in
    record { events = events; truncated = truncated }

-- `record`.
unfoldable pub record_event :
    Texts
    → String
    → EventType
    → ℕ
    → String
    → Option (Dict Detail)
    → EventLog
    → Option (Event × EventLog)
unfolding create_event_id append_event event_priority bounded_details
record_event t minted type at summary details log = elim (create_event_id minted) [
  | none ↦ none
  | some id ↦ let e = new_event t id type at summary details in some (e, append_event e log)
]

-- The loop of `pending`: it stops once the limit is reached, after at least one event.
unfoldable pub pending_from : ℕ → List Logged → List Event
pending_from limit [] = []
pending_from limit (x ∷ xs) =
    let skipped = pending_from limit xs in
    let more = pending_from (limit - 1) xs in
    if x.observed then skipped else if leb limit 1 then x.event ∷ [] else x.event ∷ more

abbrev pub pending : ℕ → EventLog → List Event
pending limit log = pending_from limit log.events

abbrev pub has_event_id : List String → Event → Bool
has_event_id ids e = any (λ id. id == e.event_id) ids

-- `markObserved`.
unfoldable pub mark_entries : List String → List Logged → List Logged
mark_entries ids [] = []
mark_entries ids (x ∷ xs) =
    record x { observed = x.observed || has_event_id ids x.event } ∷ mark_entries ids xs

unfoldable pub mark_observed : List String → EventLog → EventLog
unfolding mark_entries
mark_observed ids log = record log { events = mark_entries ids log.events }

-- `unobserved`.
abbrev pub unobserved_entries : List Logged → ℕ
unobserved_entries xs = length (keep (λ (x : Logged). not x.observed) xs)

abbrev pub unobserved : EventLog → ℕ
unobserved log = unobserved_entries log.events

-- `history`.
abbrev pub history : EventLog → List Event
history log = map (λ (x : Logged). x.event) log.events

-- `takePendingEvents` of the supervisor: the pending events, marked.
unfoldable pub take_pending : EventLog → List Event × EventLog
unfolding pending_from mark_observed
take_pending log =
    let taken = pending max_returned_events log in
    (taken, mark_observed (map (λ (e : Event). e.event_id) taken) log)
