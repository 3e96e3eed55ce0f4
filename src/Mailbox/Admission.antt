-- ===== src/Mailbox/Admission.antt =====
-- src/daemon/mailbox.ts: the loss accounts of `daemon.json`, and the write of one event under its
-- locks.
use herdr_tools.Base.{
  ◌+◌, Bool, true, false, not, ◌&&◌, String, [], Option, none, some, byte_length, get_or, leb,
  if◌then◌else◌,
}
use herdr_tools.Base.Dict.{get, put}
use herdr_tools.Mailbox.Event.{
  Account, RunInput, RunEvent, GapInput, GapEvent, event_invalid, unavailable, Codec,
  max_event_bytes, valid_run_input, valid_gap_input, is_event_id, is_manager_key,
}
use herdr_tools.Mailbox.Boxes.{
  Box, State, Result, ok, err, Io, ensure_box, box, Counts, scan_counts, cap_state, at_cap, Written,
  written, collision, fault, link_event,
}

-- `reason` of a refusal.
pub data Reason : Type 0 where
  capacity fs_unavailable id_collision : Reason

-- `MailboxWriteResult`: the path of a persisted event is its mailbox and identifier; a refusal has
-- its reason, its time, and whether the gap was parked.
pub data WriteResult : Type 0 where
  persisted : String → String → WriteResult
  refused : String → Reason → String → Bool → WriteResult

abbrev pub account_next : String → Option Account → Account
account_next at none = record { count = 1; first_at = at; last_at = at }
account_next at (some previous) = record {
  count = previous.count + 1;
  first_at = previous.first_at;
  last_at = at;
}

-- `recordFailure`: the answer says whether the gap was durably held.
unfoldable pub record_failure : Io → String → Option GapEvent → State → Bool × State
record_failure io key (some hold) s =
    if io.hold_ok
    then (true, record s { degraded = true; pending_gap = put key hold s.pending_gap })
    else (false, s)
record_failure io key none s =
    if io.status_ok
    then (
      false,
      record s {
        degraded = true;
        unpersisted = put key (account_next io.at (get key s.unpersisted)) s.unpersisted;
      },
    )
    else (false, s)

-- `recordCapacity`.
unfoldable pub record_capacity : Io → Counts → State → State
unfolding cap_state
record_capacity io counts s = if io.status_ok then record s { degraded = cap_state counts } else s

-- The refusal at a cap: a gap is parked; where that fails, and for other events, a loss is recorded.
unfoldable pub refuse_capacity : Io → String → String → Bool × State → WriteResult × State
unfolding record_failure
refuse_capacity io key id (true, t) = (refused id capacity io.at true, t)
refuse_capacity io key id (false, t) =
    (refused id capacity io.at false, (record_failure io key none t).1)

unfoldable pub hold_gap : Io → String → Option GapEvent → State → Bool × State
unfolding record_failure
hold_gap io key none s = (false, s)
hold_gap io key (some gap) s = record_failure io key (some gap) s

abbrev pub set_box : String → Box → State → State
set_box key b s = record s { boxes = put key b s.boxes }

-- What follows the write of the file.
unfoldable pub after_link : Io → String → String → State → Written → WriteResult × State
unfolding record_failure record_capacity scan_counts
after_link io key id s written = (persisted key id, record_capacity io (scan_counts s.boxes) s)
after_link io key id s collision =
    (refused id id_collision io.at false, (record_failure io key none s).1)
after_link io key id s fault =
    (refused id fs_unavailable io.at false, (record_failure io key none s).1)

-- `persistEvent`, with the mailbox there: the caps are recomputed, then the file is linked.
unfoldable pub persist_event :
    Io → String → String → String → Option GapEvent → State → WriteResult × State
unfolding at_cap scan_counts refuse_capacity hold_gap link_event after_link
persist_event io key id content hold s =
    if at_cap (scan_counts s.boxes) key (byte_length content)
    then refuse_capacity io key id (hold_gap io key hold s)
    else let (outcome, unread) = link_event io.write id content (box key s).unread in
      after_link io key id (set_box key (record (box key s) { unread = unread }) s) outcome

-- `admissionLocks`: the mailbox is created before its lock, then both locks are taken.
unfoldable pub admission {ℓ} :
    {A : Type ℓ} → Io → String → (State → Result A × State) → State → Result A × State
unfolding ensure_box is_manager_key
admission io key section s =
    if not io.trusted
    then (err unavailable, s)
    else if not (is_manager_key key)
    then (err event_invalid, s)
    else if io.locked
    then section (ensure_box key s)
    else (err unavailable, ensure_box key s)

abbrev pub answer {ℓ} : {A : Type ℓ} → A × State → Result A × State
answer (a, s) = (ok a, s)

-- `serialize`: the bound on the event file.
unfoldable pub serialize : String → Result String
unfolding byte_length
serialize text = if leb (byte_length text) max_event_bytes then ok text else err event_invalid

abbrev pub run_event : Io → RunInput → RunEvent
run_event io input = record {
  id = get_or input.id io.minted;
  at = io.at;
  kind = input.kind;
  run_id = input.run_id;
  job_id = input.job_id;
  child_identity = input.child_identity;
  decision = input.decision;
  handoff = input.handoff;
  limit = input.limit;
  actions = get_or input.actions [];
}

-- `buildRunBody`.
unfoldable pub build_run_body : Codec → Io → RunInput → Result String
unfolding valid_run_input is_event_id serialize
build_run_body c io input =
    if valid_run_input c input && is_event_id (get_or input.id io.minted)
    then serialize (c.render_run (run_event io input))
    else err event_invalid

abbrev pub gap_event : Io → GapInput → GapEvent
gap_event io gap = record {
  id = get_or gap.id io.minted;
  at = get_or gap.at io.at;
  from = gap.from;
  to = gap.to;
  lost = gap.lost;
}

-- `buildGapBody`.
unfoldable pub build_gap_body : Codec → Io → String → GapInput → Result String
unfolding valid_gap_input is_manager_key is_event_id serialize
build_gap_body c io key gap =
    if valid_gap_input gap && (is_manager_key key && is_event_id (get_or gap.id io.minted))
    then serialize (c.render_gap (gap_event io gap))
    else err event_invalid

-- `writeRunEvent` once the owner of the run is known.
unfoldable pub write_to_owner :
    Io → String → Result String → Result String → State → Result WriteResult × State
unfolding admission persist_event
write_to_owner io id (err e) owner s = (err e, s)
write_to_owner io id (ok content) (err e) s = (err e, s)
write_to_owner io id (ok content) (ok key) s =
    admission io key (λ t. answer (persist_event io key id content none t)) s

-- `writeRunEvent`: the owner is the run's current one; without the ownership seam it is refused.
unfoldable pub write_run_event :
    Codec → Option (String → Result String) → Io → RunInput → State → Result WriteResult × State
unfolding build_run_body write_to_owner
write_run_event c none io input s = (err unavailable, s)
write_run_event c (some owner_of_run) io input s =
    write_to_owner io (get_or input.id io.minted) (build_run_body c io input)
      (owner_of_run input.run_id) s

unfoldable pub write_gap_body :
    Io → String → GapEvent → Result String → State → Result WriteResult × State
unfolding admission persist_event
write_gap_body io key body (err e) s = (err e, s)
write_gap_body io key body (ok content) s =
    admission io key (λ t. answer (persist_event io key body.id content (some body) t)) s

-- `writeGapEvent`.
unfoldable pub write_gap_event : Codec → Io → String → GapInput → State → Result WriteResult × State
unfolding build_gap_body write_gap_body
write_gap_event c io key gap s =
    write_gap_body io key (gap_event io gap) (build_gap_body c io key gap) s
