-- ===== src/Mailbox/Caps.antt =====
-- The admission caps of src/daemon/mailbox.ts on the unread events, through any history.
use herdr_tools.Base.{
  ℕ, ◌+◌, ◌≤◌, ◌≡◌, false, String, ◌==◌, [], ◌∷◌, Option, some, arith, length, find, inl, inr,
  Option-cases, byte_length,
}
use herdr_tools.Base.Dict.{Dict, get, put, remove}
use herdr_tools.Mailbox.Event.{GapEvent}
use herdr_tools.Mailbox.Boxes.{
  Box, State, Io, EventWrite, smooth, stage_fault, link_fault, sync_fault, link_event, box,
  ensure_box, no_mail, box_or_empty, Count, Counts, count_boxes, sum_files, scan_counts, at_cap,
  max_global,
}
use herdr_tools.Mailbox.Admission.{persist_event, set_box}
use herdr_tools.Mailbox.Writes.{persist_event-boxes}

-- The unread events of all mailboxes.
unfoldable pub unread_total : State → ℕ
unread_total s = (scan_counts s.boxes).global

count_boxes-put :
    (key : String) (b : Box) (d : Dict Box)
    → sum_files (count_boxes (put key b d)) + length (box_or_empty (get key d)).unread
      ≡ sum_files (count_boxes d) + length b.unread
unfolding sum_files count_boxes put get
count_boxes-put key b [] = ground arith
count_boxes-put key b ((k, x) ∷ d) = ground (arith, count_boxes-put key b d)

pub unread_total-set_box :
    (key : String) (b : Box) (s : State)
    → unread_total (set_box key b s) + length (box key s).unread ≡ unread_total s + length b.unread
unfolding unread_total scan_counts
unread_total-set_box key b s = count_boxes-put key b s.boxes

pub unread_total-ensure_box :
    (key : String) (s : State) → unread_total (ensure_box key s) ≡ unread_total s
unfolding ensure_box
unread_total-ensure_box key s = ground (arith, unread_total-set_box key no_mail s)

pub length-put : (id content : String) (d : Dict String) → length (put id content d) ≤ length d + 1
unfolding put
length-put id content [] = ground arith
length-put id content ((j, w) ∷ d) = ground (arith, length-put id content d)

length-remove_le : (id : String) (d : Dict String) → length (remove id d) ≤ length d
unfolding remove
length-remove_le id [] = ground arith
length-remove_le id ((j, w) ∷ d) = ground (arith, length-remove_le id d)

pub length-remove_there :
    (id content : String) (d : Dict String)
    → get id d ≡ some content
    → length (remove id d) + 1 ≤ length d
unfolding remove get
length-remove_there id content [] h = ground arith
length-remove_there id content ((j, w) ∷ d) h =
    ground (arith, length-remove_there id content d, length-remove_le id d)

length-link_event :
    (w : EventWrite) (id content : String) (d : Dict String)
    → length (link_event w id content d).1 ≤ length d + 1
unfolding link_event
length-link_event smooth id content d = ground (arith, length-put id content d)
length-link_event stage_fault id content d = ground arith
length-link_event link_fault id content d = ground arith
length-link_event sync_fault id content d = ground (arith, length-put id content d)

at_cap-false :
    (c : Counts) (key : String) (add : ℕ) → at_cap c key add ≡ false → c.global + 1 ≤ max_global
unfolding at_cap
at_cap-false c key add h = elim (Option-cases (find (λ (e : Count). e.key == key) c.per_mailbox)) [
  | inl e ↦ ground arith
  | inr (mine, e) ↦ ground arith
]

-- One write of an event keeps the global cap.
pub persist_event-total :
    (io : Io) (key id content : String) (hold : Option GapEvent) (s : State)
    → unread_total s ≤ max_global
    → unread_total (persist_event io key id content hold s).1 ≤ max_global
unfolding unread_total scan_counts
persist_event-total io key id content hold s h =
    elim (persist_event-boxes io key id content hold s) [
      | inl e ↦ rw e h
      | inr (spare, e) ↦
          let d = (link_event io.write id content (box key s).unread).1 in
          let a = unread_total-set_box key (record (box key s) { unread = d }) s in
          rw e (
            ground (
              arith,
              length-link_event io.write id content (box key s).unread,
              at_cap-false (scan_counts s.boxes) key (byte_length content),
            ))
    ]

-- Within the global cap, opaque to the case rules below.
unfoldable pub InGlobalCap : State → Type 0
InGlobalCap s = unread_total s ≤ max_global

pub persist_event-InGlobalCap :
    (io : Io) (key id content : String) (hold : Option GapEvent) (s : State)
    → InGlobalCap s
    → InGlobalCap (persist_event io key id content hold s).1
unfolding InGlobalCap
persist_event-InGlobalCap io key id content hold s h =
    persist_event-total io key id content hold s h

pub same_boxes : (s t : State) → t.boxes ≡ s.boxes → InGlobalCap s → InGlobalCap t
unfolding InGlobalCap unread_total
same_boxes s t e h = rw e h

pub ensure_box-InGlobalCap :
    (key : String) (s : State) → InGlobalCap s → InGlobalCap (ensure_box key s)
unfolding InGlobalCap
ensure_box-InGlobalCap key s h = rw (unread_total-ensure_box key s) h
