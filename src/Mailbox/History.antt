-- ===== src/Mailbox/History.antt =====
-- The global cap of src/daemon/mailbox.ts through every operation and every history of them.
use herdr_tools.Base.{◌≤◌, ◌≡◌, String, List, [], ◌∷◌, Option, some, none, arith}
use herdr_tools.Base.Dict.{Dict}
use herdr_tools.Mailbox.Event.{GapEvent, GapInput, RunInput, Codec}
use herdr_tools.Mailbox.Boxes.{State, Result, ok, err, Io, ensure_box}
use herdr_tools.Mailbox.Admission.{
  WriteResult, persisted, refused, persist_event, admission, answer, write_run_event,
  write_to_owner, write_gap_event, write_gap_body, build_run_body, build_gap_body, gap_event,
}
use herdr_tools.Mailbox.Shift.{ack_section-InGlobalCap, move_unread-InGlobalCap}
use herdr_tools.Mailbox.Caps.{
  InGlobalCap, persist_event-InGlobalCap, same_boxes, ensure_box-InGlobalCap, unread_total,
}
use herdr_tools.Mailbox.{
  retry_gap, retry_gaps, retry_pending_gaps, after_retry, clear_pending_gap, held_input,
  check_launch_capacity, ack, ack_section,
}
use herdr_tools.Mailbox.Step.{
  step, run, Op, writes_run, writes_gap, retries_gaps, checks_launch, acks, moves,
}

-- A section that keeps a property of the state keeps it under the locks.
pub admission-keeps {ℓ κ} :
    {A : Type ℓ} (P : State → Type κ) (io : Io) (key : String) (section : State → Result A × State)
    (s : State)
    → P s
    → P (ensure_box key s)
    → P (section (ensure_box key s)).1
    → P (admission io key section s).1
unfolding admission
admission-keeps P io key section s a b c = ground arith

write_to_owner-InGlobalCap :
    (io : Io) (id : String) (content owner : Result String) (s : State)
    → InGlobalCap s
    → InGlobalCap (write_to_owner io id content owner s).1
unfolding write_to_owner
write_to_owner-InGlobalCap io id (err e) owner s h = h
write_to_owner-InGlobalCap io id (ok content) (err e) s h = h
write_to_owner-InGlobalCap io id (ok content) (ok key) s h =
    let e = ensure_box-InGlobalCap key s h in
    admission-keeps InGlobalCap io key (λ t. answer (persist_event io key id content none t)) s h e
      (persist_event-InGlobalCap io key id content none (ensure_box key s) e)

write_run_event-InGlobalCap :
    (c : Codec) (owner_of_run : Option (String → Result String)) (io : Io) (input : RunInput)
    (s : State)
    → InGlobalCap s
    → InGlobalCap (write_run_event c owner_of_run io input s).1
unfolding write_run_event
write_run_event-InGlobalCap c none io input s h = h
write_run_event-InGlobalCap c (some owner_of_run) io input s h =
    write_to_owner-InGlobalCap io _ (build_run_body c io input) (owner_of_run input.run_id) s h

write_gap_body-InGlobalCap :
    (io : Io) (key : String) (body : GapEvent) (content : Result String) (s : State)
    → InGlobalCap s
    → InGlobalCap (write_gap_body io key body content s).1
unfolding write_gap_body
write_gap_body-InGlobalCap io key body (err e) s h = h
write_gap_body-InGlobalCap io key body (ok content) s h =
    let e = ensure_box-InGlobalCap key s h in
    admission-keeps InGlobalCap io key
      (λ t. answer (persist_event io key body.id content (some body) t)) s h e
      (persist_event-InGlobalCap io key body.id content (some body) (ensure_box key s) e)

write_gap_event-InGlobalCap :
    (c : Codec) (io : Io) (key : String) (gap : GapInput) (s : State)
    → InGlobalCap s
    → InGlobalCap (write_gap_event c io key gap s).1
unfolding write_gap_event
write_gap_event-InGlobalCap c io key gap s h =
    write_gap_body-InGlobalCap io key (gap_event io gap) (build_gap_body c io key gap) s h

clear_pending_gap-boxes :
    (io : Io) (key : String) (s : State) → (clear_pending_gap io key s).boxes ≡ s.boxes
unfolding clear_pending_gap
clear_pending_gap-boxes io key s = ground arith

after_retry-InGlobalCap :
    (io : Io) (key : String) (r : Result WriteResult × State)
    → InGlobalCap r.1
    → InGlobalCap (after_retry io key r)
unfolding after_retry
after_retry-InGlobalCap io key (ok (persisted k id), t) h =
    same_boxes t (clear_pending_gap io key t) (clear_pending_gap-boxes io key t) h
after_retry-InGlobalCap io key (ok (refused id why at held), t) h = h
after_retry-InGlobalCap io key (err e, t) h = h

retry_gap-InGlobalCap :
    (c : Codec) (io : Io) (key : String) (g : GapEvent) (s : State)
    → InGlobalCap s
    → InGlobalCap (retry_gap c io key g s)
unfolding retry_gap
retry_gap-InGlobalCap c io key g s h =
    let a = same_boxes s (clear_pending_gap io key s) (clear_pending_gap-boxes io key s) h in
    let b =
      after_retry-InGlobalCap io key (write_gap_event c io key (held_input g) s)
        (write_gap_event-InGlobalCap c io key (held_input g) s h) in
    ground arith

retry_gaps-InGlobalCap :
    (c : Codec) (io : Io) (gaps : Dict GapEvent) (s : State)
    → InGlobalCap s
    → InGlobalCap (retry_gaps c io gaps s)
unfolding retry_gaps
retry_gaps-InGlobalCap c io [] s h = h
retry_gaps-InGlobalCap c io ((key, g) ∷ rest) s h =
    retry_gaps-InGlobalCap c io rest (retry_gap c io key g s) (retry_gap-InGlobalCap c io key g s h)

retry_pending_gaps-InGlobalCap :
    (c : Codec) (io : Io) (s : State) → InGlobalCap s → InGlobalCap (retry_pending_gaps c io s)
unfolding retry_pending_gaps
retry_pending_gaps-InGlobalCap c io s h = retry_gaps-InGlobalCap c io s.pending_gap s h

check_launch_capacity-InGlobalCap :
    (io : Io) (key : String) (s : State)
    → InGlobalCap s
    → InGlobalCap (check_launch_capacity io key s).1
unfolding check_launch_capacity admission
check_launch_capacity-InGlobalCap io key s h =
    let e = ensure_box-InGlobalCap key s h in ground arith

-- Every operation of the mailbox, under any environment, keeps the unread events of all managers
-- within the global cap.
pub step-InGlobalCap :
    (c : Codec) (owner_of_run : Option (String → Result String)) (io : Io) (op : Op) (s : State)
    → InGlobalCap s
    → InGlobalCap (step c owner_of_run io op s)
unfolding step ack
step-InGlobalCap c own io (writes_run input) s h = write_run_event-InGlobalCap c own io input s h
step-InGlobalCap c own io (writes_gap key gap) s h = write_gap_event-InGlobalCap c io key gap s h
step-InGlobalCap c own io retries_gaps s h = retry_pending_gaps-InGlobalCap c io s h
step-InGlobalCap c own io (checks_launch key) s h = check_launch_capacity-InGlobalCap io key s h
step-InGlobalCap c own io (acks key id) s h =
    let e = ensure_box-InGlobalCap key s h in
    let a =
      admission-keeps InGlobalCap io key (ack_section io key id) s h e
        (ack_section-InGlobalCap io key id (ensure_box key s) e) in
    ground arith
step-InGlobalCap c own io (moves from to ids) s h = move_unread-InGlobalCap io from to ids s h

-- After any history of mailbox operations, with any environment at each, the unread events of all
-- managers are at most 5000, if they were before.
pub run-global_cap :
    (c : Codec) (owner_of_run : Option (String → Result String)) (ops : List (Io × Op)) (s : State)
    → unread_total s ≤ 5000
    → unread_total (run c owner_of_run ops s) ≤ 5000
unfolding run InGlobalCap
run-global_cap c own [] s h = h
run-global_cap c own ((io, op) ∷ ops) s h =
    run-global_cap c own ops (step c own io op s) (step-InGlobalCap c own io op s h)
