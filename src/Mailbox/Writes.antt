-- ===== src/Mailbox/Writes.antt =====
-- What the write of one event does: `persistEvent` of src/daemon/mailbox.ts.
use herdr_tools.Base.{
  ◌≡◌, refl, ◌≢◌, Bool-cases, Bool, if◌then◌else◌, ◌⊎◌, inl, inr, true, false, String, ◌==◌, Option,
  some, none, arith, eq_iff, byte_length,
}
use herdr_tools.Base.Dict.{Dict, get, put, get-put}
use herdr_tools.Mailbox.Event.{GapEvent}
use herdr_tools.Mailbox.Boxes.{
  Box, State, Io, Counts, EventWrite, smooth, stage_fault, link_fault, sync_fault, Written, written,
  collision, fault, link_event, box, scan_counts, at_cap,
}
use herdr_tools.Mailbox.Admission.{
  persisted, persist_event, record_capacity, record_failure, refuse_capacity, hold_gap, after_link,
  set_box,
}

pub link_event-written :
    (w : EventWrite) (id content : String) (d : Dict String)
    → (link_event w id content d).0 ≡ written
    → (get id d ≡ none) × ((link_event w id content d).1 ≡ put id content d)
unfolding link_event
link_event-written smooth id content d h = ground arith
link_event-written stage_fault id content d h = ground arith
link_event-written link_fault id content d h = ground arith
link_event-written sync_fault id content d h = ground arith

-- A file that is there is never replaced.
pub link_event-keeps :
    (w : EventWrite) (id j content old : String) (d : Dict String)
    → get j d ≡ some old
    → get j (link_event w id content d).1 ≡ some old
unfolding link_event
link_event-keeps smooth id j content old d h = ground (arith, get-put id j content d, eq_iff id j)
link_event-keeps stage_fault id j content old d h = h
link_event-keeps link_fault id j content old d h = h
link_event-keeps sync_fault id j content old d h =
    ground (arith, get-put id j content d, eq_iff id j)

-- What a directory of a mailbox holds after a mailbox is replaced.
pub box-set_box :
    (m key : String) (b : Box) (s : State)
    → box m (set_box key b s) ≡ (if key == m then b else box m s)
box-set_box m key b s = ground (arith, get-put key m b s.boxes)

after_link-persisted :
    (io : Io) (key id k j : String) (s : State) (o : Written)
    → (after_link io key id s o).0 ≡ persisted k j
    → (o ≡ written)
      × (k ≡ key)
      × (j ≡ id)
      × ((after_link io key id s o).1 ≡ record_capacity io (scan_counts s.boxes) s)
unfolding after_link
after_link-persisted io key id k j s written h = ground arith
after_link-persisted io key id k j s collision h = ground arith
after_link-persisted io key id k j s fault h = ground arith

refuse_capacity-refuses :
    (io : Io) (key id k j : String) (r : Bool × State)
    → (refuse_capacity io key id r).0 ≢ persisted k j
unfolding refuse_capacity
refuse_capacity-refuses io key id k j (true, t) h = ground arith
refuse_capacity-refuses io key id k j (false, t) h = ground arith

module _ (io : Io) (key id content : String) (hold : Option GapEvent) (s : State) where
  abbrev linked : Written × Dict String
  linked = link_event io.write id content (box key s).unread

  abbrev pub after_file : Dict String → State
  after_file unread = set_box key (record (box key s) { unread = unread }) s

  -- At a cap the event is refused, otherwise its file is linked.
  pub persist_event-cases :
      ((at_cap (scan_counts s.boxes) key (byte_length content) ≡ true)
        × (persist_event io key id content hold s
            ≡ refuse_capacity io key id (hold_gap io key hold s)))
      ⊎ ((at_cap (scan_counts s.boxes) key (byte_length content) ≡ false)
          × (persist_event io key id content hold s
              ≡ after_link io key id (after_file linked.1) linked.0))
  unfolding persist_event
  persist_event-cases = elim (Bool-cases (at_cap (scan_counts s.boxes) key (byte_length content))) [
    | inl e ↦ inl (e, ground arith)
    | inr e ↦ inr (e, ground arith)
  ]

  pub persist_event-written :
      (k j : String)
      → (persist_event io key id content hold s).0 ≡ persisted k j
      → (at_cap (scan_counts s.boxes) key (byte_length content) ≡ false)
        × (k ≡ key)
        × (j ≡ id)
        × (get id (box key s).unread ≡ none)
        × ((persist_event io key id content hold s).1
            ≡ record_capacity io
                (scan_counts (after_file (put id content (box key s).unread)).boxes)
                (after_file (put id content (box key s).unread)))
  persist_event-written k j h = elim persist_event-cases [
    | inl (full, e) ↦ elim (refuse_capacity-refuses io key id k j (hold_gap io key hold s) cc) [ ]
    | inr (spare, e) ↦
        let (o, a, b, t) = after_link-persisted io key id k j (after_file linked.1) linked.0 cc in
        let (none_there, d) = link_event-written io.write id content (box key s).unread o in
        (spare, a, b, none_there, cc)
  ]

pub record_failure-boxes :
    (io : Io) (key : String) (hold : Option GapEvent) (s : State)
    → (record_failure io key hold s).1.boxes ≡ s.boxes
unfolding record_failure
record_failure-boxes io key none s = ground arith
record_failure-boxes io key (some g) s = ground arith

pub record_capacity-boxes :
    (io : Io) (c : Counts) (s : State) → (record_capacity io c s).boxes ≡ s.boxes
unfolding record_capacity
record_capacity-boxes io c s = ground arith

refuse_capacity-boxes :
    (io : Io) (key id : String) (r : Bool × State)
    → (refuse_capacity io key id r).1.boxes ≡ r.1.boxes
unfolding refuse_capacity
refuse_capacity-boxes io key id (true, t) = refl
refuse_capacity-boxes io key id (false, t) = record_failure-boxes io key none t

hold_gap-boxes :
    (io : Io) (key : String) (hold : Option GapEvent) (s : State)
    → (hold_gap io key hold s).1.boxes ≡ s.boxes
unfolding hold_gap
hold_gap-boxes io key none s = refl
hold_gap-boxes io key (some g) s = record_failure-boxes io key (some g) s

after_link-boxes :
    (io : Io) (key id : String) (s : State) (o : Written)
    → (after_link io key id s o).1.boxes ≡ s.boxes
unfolding after_link
after_link-boxes io key id s written = record_capacity-boxes io (scan_counts s.boxes) s
after_link-boxes io key id s collision = record_failure-boxes io key none s
after_link-boxes io key id s fault = record_failure-boxes io key none s

module _ (io : Io) (key id content : String) (hold : Option GapEvent) (s : State) where
  -- The directories after a write: as before at a cap, otherwise with what the link made of one.
  pub persist_event-boxes :
      ((persist_event io key id content hold s).1.boxes ≡ s.boxes)
      ⊎ ((at_cap (scan_counts s.boxes) key (byte_length content) ≡ false)
          × ((persist_event io key id content hold s).1.boxes
              ≡ (after_file io key id content hold s
                  (link_event io.write id content (box key s).unread).1).boxes))
  persist_event-boxes = elim (persist_event-cases io key id content hold s) [
    | inl (at, e) ↦
        let a = refuse_capacity-boxes io key id (hold_gap io key hold s) in
        let b = hold_gap-boxes io key hold s in inl cc
    | inr (spare, e) ↦
        let a =
          after_link-boxes io key id
            (after_file io key id content hold s
              (link_event io.write id content (box key s).unread).1)
            (link_event io.write id content (box key s).unread).0 in
        inr (spare, cc)
  ]

  -- No write of an event, whatever its outcome, changes an event file that is there.
  pub persist_event-keeps :
      (m j old : String)
      → get j (box m s).unread ≡ some old
      → get j (box m (persist_event io key id content hold s).1).unread ≡ some old
  persist_event-keeps m j old h = elim persist_event-boxes [
    | inl e ↦ cc
    | inr (spare, e) ↦
        let t = (link_event io.write id content (box key s).unread).1 in
        ground (
          arith,
          box-set_box m key (record (box key s) { unread = t }) s,
          eq_iff key m,
          link_event-keeps io.write id j content old (box key s).unread,
        )
  ]
