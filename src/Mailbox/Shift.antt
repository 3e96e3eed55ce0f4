-- ===== src/Mailbox/Shift.antt =====
-- The global cap under the operations of src/daemon/mailbox.ts that move event files.
use herdr_tools.Base.{
  ◌≡◌, String, List, [], ◌∷◌, ◌++◌, some, none, arith, inl, inr, Option-cases, text_before,
}
use herdr_tools.Base.Dict.{get, put, remove}
use herdr_tools.Base.Sort.{sort}
use herdr_tools.Mailbox.Boxes.{State, Result, ok, err, Io, ensure_box, box, scan_counts}
use herdr_tools.Mailbox.Admission.{set_box, record_failure, record_capacity}
use herdr_tools.Mailbox.Move.{
  MoveOutcome, transfer, move_files, record_losses, after_move, move_unread_locked, ensure_boxes,
  move_unread, nothing_moved,
}
use herdr_tools.Mailbox.Writes.{record_capacity-boxes, record_failure-boxes}
use herdr_tools.Mailbox.Caps.{
  InGlobalCap, same_boxes, ensure_box-InGlobalCap, unread_total-set_box, length-remove_there,
  length-put,
}
use herdr_tools.Mailbox.{ack_section, acknowledged}

acknowledged-InGlobalCap :
    (key id content : String) (s : State)
    → get id (box key s).unread ≡ some content
    → InGlobalCap s
    → InGlobalCap (set_box key (acknowledged id content (box key s)) s)
unfolding InGlobalCap
acknowledged-InGlobalCap key id content s e h = ground (
  arith,
  unread_total-set_box key (acknowledged id content (box key s)) s,
  length-remove_there id content (box key s).unread,
)

pub ack_section-InGlobalCap :
    (io : Io) (key id : String) (s : State)
    → InGlobalCap s
    → InGlobalCap (ack_section io key id s).1
unfolding ack_section
ack_section-InGlobalCap io key id s h = elim (Option-cases (get id (box key s).unread)) [
  | inl e ↦ ground arith
  | inr (content, e) ↦
      let t = set_box key (acknowledged id content (box key s)) s in
      let a = acknowledged-InGlobalCap key id content s e h in
      let b = record_capacity-boxes io (scan_counts t.boxes) t in
      let d = same_boxes t (record_capacity io (scan_counts t.boxes) t) b a in ground arith
]

-- The move of a file leaves the number of unread events, or lowers it where a file is replaced.
transfer-InGlobalCap :
    (from to id content : String) (s : State)
    → get id (box from s).unread ≡ some content
    → InGlobalCap s
    → InGlobalCap (transfer from to id content s)
unfolding InGlobalCap transfer
transfer-InGlobalCap from to id content s e h =
    let b = record (box from s) { unread = remove id (box from s).unread } in
    let t = set_box from b s in
    ground (
      arith,
      unread_total-set_box from b s,
      unread_total-set_box to (record (box to t) { unread = put id content (box to t).unread }) t,
      length-remove_there id content (box from s).unread,
      length-put id content (box to t).unread,
    )

move_files-InGlobalCap :
    (io : Io) (from to : String) (ids : List String) (out : MoveOutcome) (s : State)
    → InGlobalCap s
    → InGlobalCap (move_files io from to ids out s).1
unfolding move_files
move_files-InGlobalCap io from to [] out s h = h
move_files-InGlobalCap io from to (id ∷ ids) out s h =
    elim (Option-cases (get id (box from s).unread)) [
      | inr (content, e) ↦
          let a =
            move_files-InGlobalCap io from to ids (record out { moved = out.moved ++ id ∷ [] })
              (transfer from to id content s) (transfer-InGlobalCap from to id content s e h) in
          ground arith
      | inl e ↦
          let a =
            move_files-InGlobalCap io from to ids
              (record out { already_at_destination = out.already_at_destination ++ id ∷ [] }) s h in
          let b =
            move_files-InGlobalCap io from to ids (record out { lost = out.lost ++ id ∷ [] }) s h in
          ground arith
    ]

record_losses-InGlobalCap :
    (io : Io) (from : String) (ids : List String) (s : State)
    → InGlobalCap s
    → InGlobalCap (record_losses io from ids s)
unfolding record_losses
record_losses-InGlobalCap io from [] s h = h
record_losses-InGlobalCap io from (id ∷ ids) s h =
    record_losses-InGlobalCap io from ids (record_failure io from none s).1
      (same_boxes s (record_failure io from none s).1 (record_failure-boxes io from none s) h)

after_move-InGlobalCap :
    (io : Io) (from : String) (r : Result MoveOutcome × State)
    → InGlobalCap r.1
    → InGlobalCap (after_move io from r).1
unfolding after_move
after_move-InGlobalCap io from (err e, s) h = h
after_move-InGlobalCap io from (ok out, s) h =
    let t = record_losses io from out.lost s in
    same_boxes t (record_capacity io (scan_counts t.boxes) t)
      (record_capacity-boxes io (scan_counts t.boxes) t)
      (record_losses-InGlobalCap io from out.lost s h)

ensure_boxes-InGlobalCap :
    (keys : List String) (s : State) → InGlobalCap s → InGlobalCap (ensure_boxes keys s)
unfolding ensure_boxes
ensure_boxes-InGlobalCap [] s h = h
ensure_boxes-InGlobalCap (k ∷ ks) s h =
    ensure_boxes-InGlobalCap ks (ensure_box k s) (ensure_box-InGlobalCap k s h)

move_unread_locked-InGlobalCap :
    (io : Io) (from to : String) (ids : List String) (s : State)
    → InGlobalCap s
    → InGlobalCap (move_unread_locked io from to ids s).1
unfolding move_unread_locked
move_unread_locked-InGlobalCap io from to ids s h =
    let t = ensure_box to (ensure_box from s) in
    after_move-InGlobalCap io from (move_files io from to ids nothing_moved t) (
      move_files-InGlobalCap io from to ids nothing_moved t
        (ensure_box-InGlobalCap to (ensure_box from s) (ensure_box-InGlobalCap from s h)))

pub move_unread-InGlobalCap :
    (io : Io) (from to : String) (ids : List String) (s : State)
    → InGlobalCap s
    → InGlobalCap (move_unread io from to ids s).1
unfolding move_unread
move_unread-InGlobalCap io from to ids s h =
    let t = ensure_boxes (sort text_before (from ∷ to ∷ [])) s in
    let a = ensure_boxes-InGlobalCap (sort text_before (from ∷ to ∷ [])) s h in
    let b = move_unread_locked-InGlobalCap io from to ids t a in ground arith
