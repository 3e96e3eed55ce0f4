-- ===== src/Mailbox/Persisted.antt =====
-- What a write that answers persisted has done: `persistEvent` of src/daemon/mailbox.ts.
use herdr_tools.Base.{
  ℕ, ◌+◌, ◌≤◌, ◌≡◌, refl, sym, ap, subst, ◌∙◌, Bool, false, ◌&&◌, ◌||◌, String, ◌==◌, [], ◌∷◌,
  Option, none, some, any, find, length, leb, arith, eq_iff, byte_length, if◌then◌else◌, ◌⊎◌, inl,
  inr, Bool-cases,
}
use herdr_tools.Base.Dict.{Dict, get, put, get-put}
use herdr_tools.Mailbox.Event.{GapEvent}
use herdr_tools.Mailbox.Boxes.{
  Box, State, Io, box, box_or_empty, Counts, total_bytes, Count, count_boxes, sum_files,
  scan_counts, full, cap_state, at_cap,
}
use herdr_tools.Mailbox.Admission.{persisted, persist_event, record_capacity}
use herdr_tools.Mailbox.Writes.{
  persist_event-written, after_file, box-set_box, record_capacity-boxes,
}

-- The unread event files of all mailboxes.
unfoldable pub all_files : Dict Box → ℕ
all_files [] = 0
all_files ((k, b) ∷ d) = length b.unread + all_files d

-- A mailbox holds 500 unread files or 8 MiB of them.
unfoldable pub some_full : Dict Box → Bool
unfolding total_bytes
some_full [] = false
some_full ((k, b) ∷ d) =
    leb 500 (length b.unread) || (leb 8388608 (total_bytes b.unread) || some_full d)

sum_files-all_files : (d : Dict Box) → sum_files (count_boxes d) ≡ all_files d
unfolding sum_files count_boxes all_files
sum_files-all_files [] = refl
sum_files-all_files ((k, b) ∷ d) = ground (arith, sum_files-all_files d)

full-some_full : (d : Dict Box) → any full (count_boxes d) ≡ some_full d
unfolding count_boxes some_full
full-some_full [] = refl
full-some_full ((k, b) ∷ d) = ground (arith, full-some_full d)

find-count_boxes :
    (key : String) (d : Dict Box)
    → (find (λ (e : Count). e.key == key) (count_boxes d) ≡ none)
      ⊎ ((c : Count) × (find (λ (e : Count). e.key == key) (count_boxes d) ≡ some c)
          × (c.files ≡ length (box_or_empty (get key d)).unread)
          × (c.bytes ≡ total_bytes (box_or_empty (get key d)).unread))
unfolding count_boxes get
find-count_boxes key [] = inl refl
find-count_boxes key ((k, b) ∷ d) = elim (Bool-cases (k == key)) [
  | inl e ↦ rw e (inr (_, refl, refl, refl))
  | inr e ↦ rw e (find-count_boxes key d)
]

-- The room that a mailbox has where no cap is reached.
abbrev HasRoom : String → ℕ → Dict Box → Type 0
HasRoom key add d =
    (length (box_or_empty (get key d)).unread + 1 ≤ 500)
    × (total_bytes (box_or_empty (get key d)).unread + add ≤ 8388608)
    × (all_files d + 1 ≤ 5000)

at_cap-HasRoom :
    (key : String) (add : ℕ) (d : Dict Box)
    → at_cap (scan_counts d) key add ≡ false
    → HasRoom key add d
unfolding at_cap scan_counts
at_cap-HasRoom key add d h = elim (find-count_boxes key d) [
  | inl e ↦ absurd (ground arith)
  | inr (c, e, files, bytes) ↦
      let total = sum_files-all_files d in (ground arith, ground arith, ground arith)
]

record_capacity-degraded :
    (io : Io) (s : State)
    → (record_capacity io (scan_counts s.boxes) s).degraded
      ≡ (if io.status_ok then some_full s.boxes || leb 5000 (all_files s.boxes) else s.degraded)
unfolding record_capacity cap_state scan_counts
record_capacity-degraded io s =
    let a = full-some_full s.boxes in let b = sum_files-all_files s.boxes in ground arith

record_capacity-unpersisted :
    (io : Io) (c : Counts) (s : State) → (record_capacity io c s).unpersisted ≡ s.unpersisted
unfolding record_capacity
record_capacity-unpersisted io c s = ground arith

record_capacity-pending_gap :
    (io : Io) (c : Counts) (s : State) → (record_capacity io c s).pending_gap ≡ s.pending_gap
unfolding record_capacity
record_capacity-pending_gap io c s = ground arith

-- The write of one event into `s`, seen at the file `i` of the mailbox `m`.
pub record Adds (io : Io) (key id content : String) (s t : State) (m i : String) : Type 0 where
  -- there was room for one more file
  pub files : length (box key s).unread + 1 ≤ 500
  pub bytes : total_bytes (box key s).unread + byte_length content ≤ 8388608
  pub global : all_files s.boxes + 1 ≤ 5000
  -- the file is new, and no other changes
  pub fresh : get id (box key s).unread ≡ none
  pub unread :
      get i (box m t).unread
      ≡ (if key == m && id == i then some content else get i (box m s).unread)
  pub acked : (box m t).acked ≡ (box m s).acked
  -- what `daemon.json` says
  pub degraded :
      t.degraded
      ≡ (if io.status_ok then some_full t.boxes || leb 5000 (all_files t.boxes) else s.degraded)
  pub unpersisted : t.unpersisted ≡ s.unpersisted
  pub pending_gap : t.pending_gap ≡ s.pending_gap

module _ (io : Io) (key id content : String) (s : State) (m i : String) where
  abbrev added : State
  added = after_file io key id content none s (put id content (box key s).unread)

  unread_added :
      get i (box m added).unread
      ≡ (if key == m && id == i then some content else get i (box m s).unread)
  unread_added = ground (
    arith,
    box-set_box m key (record (box key s) { unread = put id content (box key s).unread }) s,
    get-put id i content (box key s).unread,
    eq_iff key m,
  )

  acked_added : (box m added).acked ≡ (box m s).acked
  acked_added = ground (
    arith,
    box-set_box m key (record (box key s) { unread = put id content (box key s).unread }) s,
    eq_iff key m,
  )

  recorded_added :
      at_cap (scan_counts s.boxes) key (byte_length content) ≡ false
      → get id (box key s).unread ≡ none
      → Adds io key id content s (record_capacity io (scan_counts added.boxes) added) m i
  recorded_added spare there =
      let (files, bytes, global) = at_cap-HasRoom key (byte_length content) s.boxes spare in
      let same = record_capacity-boxes io (scan_counts added.boxes) added in
      record {
        files = files;
        bytes = bytes;
        global = global;
        fresh = there;
        unread = ap (λ (d : Dict Box). get i (box_or_empty (get m d)).unread) same ∙ unread_added;
        acked = ap (λ (d : Dict Box). (box_or_empty (get m d)).acked) same ∙ acked_added;
        degraded = rw same (record_capacity-degraded io added);
        unpersisted = record_capacity-unpersisted io (scan_counts added.boxes) added;
        pending_gap = record_capacity-pending_gap io (scan_counts added.boxes) added;
      }

-- A write that answers persisted names its mailbox and its event. Before it the mailbox had at most
-- 499 unread files, with the new content they have at most 8 MiB, all mailboxes had at most 4999
-- unread files, and no unread file of the mailbox had that identifier. The write adds that file with
-- its content, and leaves every other unread and every acked file, the loss accounts and the parked
-- gaps as they are. Where `daemon.json` can be written, the service is then marked degraded exactly
-- if a mailbox has 500 unread files or 8 MiB of them or all have 5000; otherwise the mark is as before.
pub persist_event-persisted :
    (io : Io) (key id content : String) (hold : Option GapEvent) (s : State) (k j m i : String)
    → (persist_event io key id content hold s).0 ≡ persisted k j
    → (k ≡ key) × (j ≡ id) × Adds io key id content s (persist_event io key id content hold s).1 m i
persist_event-persisted io key id content hold s k j m i h =
    let (spare, a, b, there, e) = persist_event-written io key id content hold s k j h in
    (
      a,
      b,
      subst (λ t. Adds io key id content s t m i) (sym e)
          (recorded_added io key id content s m i spare there),
    )
