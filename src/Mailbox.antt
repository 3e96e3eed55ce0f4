-- ===== src/Mailbox.antt =====
-- The manager mailbox of src/daemon/mailbox.ts: what it offers to its callers. The events are in
-- Mailbox/Event, the directories and caps in Mailbox/Boxes, the locked write in Mailbox/Admission; the
-- other children prove.
pub mod Event
pub mod Boxes
pub mod Admission
pub mod Move
pub mod Step
pub mod Writes
pub mod Persisted
pub mod Losses
pub mod Caps
pub mod Shift
pub mod History
pub mod Gaps
pub mod Conserved
pub mod Acks
mod Tests
use herdr_tools.Base.{
  ℕ, ◌-◌, Bool, true, false, not, ◌&&◌, ◌||◌, String, ◌==◌, List, [], ◌∷◌, ◌++◌, Option, none, some,
  all, is_some, length, take, text_before, if◌then◌else◌,
}
use herdr_tools.Base.Dict.{Dict, get, put, remove, names}
use herdr_tools.Base.Sort.{sort}
use Event.{
  Account, GapInput, GapEvent, MailboxError, event_invalid, unavailable, event_not_found, Codec,
  is_event_id, is_manager_key,
}
use Boxes.{Box, State, Result, ok, err, Io, ensure_box, box, max_acked, scan_counts, at_cap}
use Admission.{
  WriteResult, persisted, refused, record_failure, record_capacity, set_box, admission,
  write_gap_event,
}

-- `clearPendingGap`.
unfoldable pub clear_pending_gap : Io → String → State → State
clear_pending_gap io key s =
    if io.status_ok then record s { pending_gap = remove key s.pending_gap } else s

abbrev pub on_disk : String → String → State → Bool
on_disk key id s = is_some (get id (box key s).unread) || is_some (get id (box key s).acked)

-- A parked gap is replayed verbatim.
abbrev pub held_input : GapEvent → GapInput
held_input g = record { from = g.from; to = g.to; lost = g.lost; id = some g.id; at = some g.at }

unfoldable pub after_retry : Io → String → Result WriteResult × State → State
unfolding clear_pending_gap
after_retry io key (ok (persisted k id), t) = clear_pending_gap io key t
after_retry io key (ok (refused id reason at held), t) = t
after_retry io key (err e, t) = t

-- One parked gap: a copy on disk means that it landed, otherwise it is written again.
unfoldable pub retry_gap : Codec → Io → String → GapEvent → State → State
unfolding clear_pending_gap after_retry write_gap_event
retry_gap c io key g s =
    if io.trusted && (is_manager_key key && on_disk key g.id s)
    then clear_pending_gap io key s
    else after_retry io key (write_gap_event c io key (held_input g) s)

-- The loop over the parked gaps that were read at its start.
unfoldable pub retry_gaps : Codec → Io → Dict GapEvent → State → State
unfolding retry_gap
retry_gaps c io [] s = s
retry_gaps c io ((key, g) ∷ rest) s = retry_gaps c io rest (retry_gap c io key g s)

-- `retryPendingGaps`.
unfoldable pub retry_pending_gaps : Codec → Io → State → State
unfolding retry_gaps
retry_pending_gaps c io s = retry_gaps c io s.pending_gap s

-- `{ok: true}`, or `MAILBOX_CAPACITY` with its time.
pub data LaunchCapacity : Type 0 where
  room : LaunchCapacity
  no_room : String → LaunchCapacity

-- `checkLaunchCapacity`.
unfoldable pub check_launch_capacity : Io → String → State → Result LaunchCapacity × State
unfolding admission at_cap scan_counts is_manager_key
check_launch_capacity io key s =
    if not (is_manager_key key)
    then (err event_invalid, s)
    else admission io key
        (λ t. if at_cap (scan_counts t.boxes) key 0 then (ok (no_room io.at), t) else (ok room, t))
        s

-- `list`: the unread identifiers, oldest first.
unfoldable pub list_unread : Io → String → State → Result (List String)
unfolding is_manager_key names sort text_before
list_unread io key s =
    if not (is_manager_key key)
    then err event_invalid
    else if io.trusted
    then ok (sort text_before (names (box key s).unread))
    else err unavailable

-- `readEventBody`: the content must name its own identifier.
unfoldable pub read_body : Codec → String → Option String → Result String
read_body c id none = err event_not_found
read_body c id (some content) = elim (c.parsed_id content) [
  | none ↦ err unavailable
  | some parsed ↦ if parsed == id then ok content else err unavailable
]

-- `read`: unread, then acked where it is not found.
unfoldable pub read_event : Codec → Io → String → String → State → Result String
unfolding read_body is_event_id is_manager_key
read_event c io key id s =
    if not (is_event_id id && is_manager_key key)
    then err event_invalid
    else if not io.trusted
    then err unavailable
    else elim (get id (box key s).unread) [
      | none ↦ read_body c id (get id (box key s).acked)
      | some content ↦ read_body c id (some content)
    ]

unfoldable pub drop_names : List String → Dict String → Dict String
drop_names [] d = d
drop_names (n ∷ ns) d = drop_names ns (remove n d)

-- `pruneAcked`: the oldest names beyond the newest thousand are deleted.
unfoldable pub prune_acked : Dict String → Dict String
unfolding drop_names names sort text_before
prune_acked d = drop_names (take (length d - max_acked) (sort text_before (names d))) d

pub data AckResult : Type 0 where
  acked already_acked : AckResult

-- The move of one event file to `acked/`, replacing a file of that name, and the pruning.
abbrev pub acknowledged : String → String → Box → Box
acknowledged id content b = record {
  unread = remove id b.unread;
  acked = prune_acked (put id content b.acked);
}

-- The section of `ack`.
unfoldable pub ack_section : Io → String → String → State → Result AckResult × State
unfolding prune_acked record_capacity scan_counts
ack_section io key id s = elim (get id (box key s).unread) [
  | some content ↦
      let t = set_box key (acknowledged id content (box key s)) s in
      (ok acked, record_capacity io (scan_counts t.boxes) t)
  | none ↦
      if is_some (get id (box key s).acked) then (ok already_acked, s) else (err event_not_found, s)
]

-- `ack`.
unfoldable pub ack : Io → String → String → State → Result AckResult × State
unfolding ack_section admission is_event_id
ack io key id s =
    if is_event_id id then admission io key (ack_section io key id) s else (err event_invalid, s)
