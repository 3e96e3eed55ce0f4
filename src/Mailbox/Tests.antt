-- ===== src/Mailbox/Tests.antt =====
-- Runs of the mailbox, and its theorems at concrete inputs.
use herdr_tools.Base.{
  ◌≤◌, ◌≡◌, refl, Bool, true, false, String, List, [], ◌∷◌, some, none, ◌⊎◌, byte_length, arith,
  is_some, length, is_sha256_hex,
}
use herdr_tools.Base.Dict.{get, put, names, remove}
use herdr_tools.Base.Sort.{sort, insert_sorted}
use herdr_tools.Base.Distinct.{Distinct}
use herdr_tools.Mailbox.Event.{
  Codec, RunInput, GapEvent, is_event_id, is_manager_key, valid_run_input, bounded_text,
}
use herdr_tools.Mailbox.Boxes.{
  State, ok, Io, smooth, link_fault, no_mail, box, scan_counts, at_cap, cap_state, link_event,
  ensure_box, count_boxes, sum_files, total_bytes,
}
use herdr_tools.Mailbox.Admission.{
  persisted, persist_event, record_capacity, record_failure, fs_unavailable, after_link,
  refuse_capacity, hold_gap, admission, write_run_event, build_run_body, write_to_owner, serialize,
}
use herdr_tools.Mailbox.Move.{move_unread}
use herdr_tools.Mailbox.Persisted.{Adds, persist_event-persisted}
use herdr_tools.Mailbox.Writes.{persist_event-keeps}
use herdr_tools.Mailbox.Losses.{IsAccounted, refused_IsAccounted}
use herdr_tools.Mailbox.Caps.{unread_total}
use herdr_tools.Mailbox.History.{run-global_cap}
use herdr_tools.Mailbox.Gaps.{retry_gap-keeps}
use herdr_tools.Mailbox.Conserved.{move_unread-conserves}
use herdr_tools.Mailbox.Acks.{ack_moves}
use herdr_tools.Mailbox.Step.{Op, run, writes_run, acks, moves}
use herdr_tools.Mailbox.{on_disk, retry_gap, ack, ack_section, prune_acked, drop_names}

abbrev manager : String
manager = "0123456789abcdef0123456789abcdef0123456789abcdef0123456789abcdef"

abbrev heir : String
heir = "fedcba9876543210fedcba9876543210fedcba9876543210fedcba9876543210"

abbrev event : String
event = "2026-01-01T000000.000Z-aaaaaaaa-bbbb-4ccc-8ddd-eeeeeeeeeeee"

abbrev codec : Codec
codec = record {
  render_run = λ e. e.id;
  render_gap = λ g. g.id;
  parsed_id = λ content. some content;
  date_parses = λ s. true;
}

abbrev healthy : Io
healthy = record {
  trusted = true;
  locked = true;
  status_ok = true;
  hold_ok = true;
  at = "2026-01-01T00:00:00.000Z";
  minted = event;
  write = smooth;
  renames = λ id. true;
}

abbrev faulty : Io
faulty = record healthy { write = link_fault }

abbrev fresh : State
fresh = record {
  boxes = (manager, no_mail) ∷ [];
  degraded = false;
  unpersisted = [];
  pending_gap = [];
}

abbrev one_unread : State
one_unread = record fresh {
  boxes = (manager, record no_mail { unread = (event, event) ∷ [] }) ∷ [];
}

abbrev input : RunInput
input = record {
  kind = "review_needed";
  run_id = "r1";
  job_id = "j1";
  child_identity = none;
  decision = none;
  handoff = none;
  limit = none;
  actions = none;
  id = none;
}

-- Opens the code that a run of the mailbox goes through.
mailbox_code : Bool
unfolding persist_event at_cap scan_counts count_boxes sum_files total_bytes link_event after_link
    record_capacity record_failure cap_state get put remove names ensure_box admission ack
    ack_section prune_acked drop_names sort insert_sorted is_event_id is_manager_key is_sha256_hex
    refuse_capacity hold_gap write_run_event build_run_body write_to_owner serialize valid_run_input
    bounded_text byte_length
mailbox_code = true

first_write : (persist_event healthy manager event event none fresh).0 ≡ persisted manager event
unfolding mailbox_code
first_write = refl

run_event_written :
    (write_run_event codec (some (λ r. ok manager)) healthy input fresh).0
    ≡ ok (persisted manager event)
unfolding mailbox_code
run_event_written = refl

persist_event-persisted_example :
    (manager ≡ manager)
    × (event ≡ event)
    × Adds healthy manager event event fresh
        (persist_event healthy manager event event none fresh).1
        manager
        event
persist_event-persisted_example =
    persist_event-persisted healthy manager event event none fresh manager event manager event
      first_write

persist_event-keeps_example :
    get event (box manager (persist_event healthy manager event "other" none one_unread).1).unread
    ≡ some event
persist_event-keeps_example =
    persist_event-keeps healthy manager event "other" none one_unread manager event event
      (unfold mailbox_code in refl)

refused_IsAccounted_example :
    IsAccounted faulty manager manager none fresh
      (persist_event faulty manager event event none fresh).1
      false
refused_IsAccounted_example =
    refused_IsAccounted faulty manager manager event event event healthy.at fs_unavailable false
      none fresh refl (unfold mailbox_code in refl)

abbrev errands : List (Io × Op)
errands =
    (healthy, writes_run input)
    ∷ (faulty, writes_run input)
    ∷ (healthy, moves manager heir (event ∷ []))
    ∷ (healthy, acks heir event)
    ∷ []

run-global_cap_example : unread_total (run codec (some (λ r. ok manager)) errands fresh) ≤ 5000
run-global_cap_example =
    run-global_cap codec (some (λ r. ok manager)) errands fresh
      (unfold unread_total mailbox_code in ground arith)

abbrev gap : GapEvent
gap = record { id = event; at = healthy.at; from = "a"; to = "b"; lost = [] }

abbrev gap_parked : State
gap_parked = record fresh { pending_gap = (manager, gap) ∷ [] }

retry_gap-keeps_example :
    (on_disk manager event (retry_gap codec faulty manager gap gap_parked) ≡ true)
    ⊎ (get manager (retry_gap codec faulty manager gap gap_parked).pending_gap ≡ some gap)
retry_gap-keeps_example =
    retry_gap-keeps codec faulty manager gap gap_parked (unfold mailbox_code in refl)

move_unread-conserves_example :
    (get event (box manager (move_unread healthy manager heir (event ∷ []) one_unread).1).unread
      ≡ some event)
    ⊎ (get event (box heir (move_unread healthy manager heir (event ∷ []) one_unread).1).unread
        ≡ some event)
move_unread-conserves_example =
    move_unread-conserves healthy manager heir (event ∷ []) one_unread event event
      (unfold mailbox_code in refl)

ack_moves_example :
    (is_some (get event (box manager one_unread).unread) ≡ true)
    × (get event (box manager (ack healthy manager event one_unread).1).unread ≡ none)
    × (length (box manager (ack healthy manager event one_unread).1).acked ≤ 1000)
ack_moves_example =
    ack_moves healthy manager event one_unread (unfold names Distinct get in tt)
      (unfold mailbox_code in refl)
