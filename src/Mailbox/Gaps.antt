-- ===== src/Mailbox/Gaps.antt =====
-- The parked gap disclosures: `retryPendingGaps` of src/daemon/mailbox.ts.
use herdr_tools.Base.{
  ◌≡◌, refl, true, String, Option, some, none, ◌⊎◌, inl, inr, arith, eq_refl, Bool-cases, ◌&&◌, sym,
  subst,
}
use herdr_tools.Base.Dict.{get, get-put}
use herdr_tools.Mailbox.Event.{
  GapEvent, Codec, MailboxError, event_invalid, unavailable, is_manager_key,
}
use herdr_tools.Mailbox.Boxes.{
  State, Result, ok, err, Io, ensure_box, box, Written, written, collision, fault, link_event,
}
use herdr_tools.Mailbox.Admission.{
  WriteResult, persisted, refused, persist_event, admission, answer, record_failure,
  record_capacity, refuse_capacity, hold_gap, after_link, write_gap_event, write_gap_body,
  build_gap_body,
}
use herdr_tools.Mailbox.Writes.{persist_event-cases, after_file, box-set_box, link_event-written}
use herdr_tools.Mailbox.{on_disk, clear_pending_gap, after_retry, retry_gap, held_input}

-- A write of a gap that answers: the event is on disk, or the gap is parked as it was.
unfoldable IsKept : String → GapEvent → Result WriteResult × State → Type 0
IsKept key g (ok (persisted k id), t) = on_disk key g.id t ≡ true
IsKept key g (ok (refused id why at held), t) = get key t.pending_gap ≡ some g
IsKept key g (err e, t) = get key t.pending_gap ≡ some g

record_failure-parked :
    (io : Io) (key : String) (g : GapEvent) (s : State)
    → get key s.pending_gap ≡ some g
    → get key (record_failure io key none s).1.pending_gap ≡ some g
unfolding record_failure
record_failure-parked io key g s h = ground arith

refuse_capacity-IsKept :
    (io : Io) (key id : String) (g : GapEvent) (s : State)
    → get key s.pending_gap ≡ some g
    → IsKept key g (answer (refuse_capacity io key id (hold_gap io key (some g) s)))
unfolding refuse_capacity hold_gap record_failure IsKept
refuse_capacity-IsKept io key id g s h =
    ground (arith, eq_refl key, get-put key key g s.pending_gap)

after_link-IsKept :
    (io : Io) (key : String) (g : GapEvent) (s : State) (o : Written)
    → (o ≡ written → on_disk key g.id s ≡ true)
    → get key s.pending_gap ≡ some g
    → IsKept key g (answer (after_link io key g.id s o))
unfolding after_link IsKept record_capacity
after_link-IsKept io key g s written there h = ground (arith, there refl)
after_link-IsKept io key g s collision there h = record_failure-parked io key g s h
after_link-IsKept io key g s fault there h = record_failure-parked io key g s h

linked-on_disk :
    (io : Io) (key id content : String) (hold : Option GapEvent) (s : State)
    → (link_event io.write id content (box key s).unread).0 ≡ written
    → on_disk key id
        (after_file io key id content hold s (link_event io.write id content (box key s).unread).1)
      ≡ true
linked-on_disk io key id content hold s h =
    let d = (link_event io.write id content (box key s).unread).1 in
    ground (
      arith,
      eq_refl key,
      eq_refl id,
      link_event-written io.write id content (box key s).unread h,
      box-set_box key key (record (box key s) { unread = d }) s,
      get-put id id content (box key s).unread,
    )

persist_event-IsKept :
    (io : Io) (key content : String) (g : GapEvent) (s : State)
    → get key s.pending_gap ≡ some g
    → IsKept key g (answer (persist_event io key g.id content (some g) s))
persist_event-IsKept io key content g s h =
    elim (persist_event-cases io key g.id content (some g) s) [
      | inl (full, e) ↦
          subst (λ r. IsKept key g (answer r)) (sym e) (refuse_capacity-IsKept io key g.id g s h)
      | inr (spare, e) ↦
          subst (λ r. IsKept key g (answer r)) (sym e)
            (after_link-IsKept io key g
              (after_file io key g.id content (some g) s
                (link_event io.write g.id content (box key s).unread).1)
              (link_event io.write g.id content (box key s).unread).0
              (linked-on_disk io key g.id content (some g) s) h)
    ]

ensure_box-parked : (key k : String) (s : State) → (ensure_box k s).pending_gap ≡ s.pending_gap
unfolding ensure_box
ensure_box-parked key k s = ground arith

admission-answers {ℓ κ} :
    {A : Type ℓ} (P : Result A × State → Type κ) (io : Io) (key : String)
    (section : State → Result A × State) (s : State)
    → ((e : MailboxError) → P (err e, s))
    → ((e : MailboxError) → P (err e, ensure_box key s))
    → P (section (ensure_box key s))
    → P (admission io key section s)
unfolding admission
admission-answers P io key section s a b c =
    let x = a unavailable in let y = a event_invalid in let z = b unavailable in ground arith

write_gap_body-IsKept :
    (io : Io) (key : String) (g : GapEvent) (content : Result String) (s : State)
    → get key s.pending_gap ≡ some g
    → IsKept key g (write_gap_body io key g content s)
unfolding write_gap_body IsKept
write_gap_body-IsKept io key g (err e) s h = h
write_gap_body-IsKept io key g (ok content) s h =
    let h' : get key (ensure_box key s).pending_gap ≡ some g = rw (ensure_box-parked key key s) h in
    admission-answers (IsKept key g) io key
      (λ t. answer (persist_event io key g.id content (some g) t)) s (λ e. h) (λ e. h')
      (persist_event-IsKept io key content g (ensure_box key s) h')

clear_pending_gap-on_disk :
    (io : Io) (key id : String) (s : State)
    → on_disk key id s ≡ true
    → on_disk key id (clear_pending_gap io key s) ≡ true
unfolding clear_pending_gap
clear_pending_gap-on_disk io key id s h = ground arith

after_retry-kept :
    (io : Io) (key : String) (g : GapEvent) (r : Result WriteResult × State)
    → IsKept key g r
    → (on_disk key g.id (after_retry io key r) ≡ true)
      ⊎ (get key (after_retry io key r).pending_gap ≡ some g)
unfolding after_retry IsKept
after_retry-kept io key g (ok (persisted k id), t) h =
    inl (clear_pending_gap-on_disk io key g.id t h)
after_retry-kept io key g (ok (refused id why at held), t) h = inr h
after_retry-kept io key g (err e, t) h = inr h

-- A parked gap disclosure is never destroyed: after its retry, under any environment, its event file
-- is in the mailbox, unread or acked, or the same gap is still parked.
pub retry_gap-keeps :
    (c : Codec) (io : Io) (key : String) (g : GapEvent) (s : State)
    → get key s.pending_gap ≡ some g
    → (on_disk key g.id (retry_gap c io key g s) ≡ true)
      ⊎ (get key (retry_gap c io key g s).pending_gap ≡ some g)
unfolding retry_gap write_gap_event
retry_gap-keeps c io key g s h =
    elim (Bool-cases (io.trusted && (is_manager_key key && on_disk key g.id s))) [
      | inl e ↦ rw e (inl (clear_pending_gap-on_disk io key g.id s (ground arith)))
      | inr e ↦ rw e (
          after_retry-kept io key g (write_gap_event c io key (held_input g) s)
            (write_gap_body-IsKept io key g (build_gap_body c io key (held_input g)) s h))
    ]
