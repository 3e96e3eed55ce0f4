-- ===== src/Mailbox/Conserved.antt =====
-- No event is lost in a move: `moveUnread` of src/daemon/mailbox.ts.
use herdr_tools.Base.{
  ◌≡◌, ◌≢◌, String, ◌==◌, List, [], ◌∷◌, ◌++◌, some, none, ◌⊎◌, inl, inr, arith, eq_iff, eq_refl,
  Bool-cases, Option-cases, text_before,
}
use herdr_tools.Base.Dict.{get, put, remove, get-put, get-remove}
use herdr_tools.Base.Sort.{sort}
use herdr_tools.Mailbox.Boxes.{State, Result, ok, err, Io, ensure_box, box, scan_counts, no_mail}
use herdr_tools.Mailbox.Admission.{set_box, record_failure, record_capacity}
use herdr_tools.Mailbox.Move.{
  MoveOutcome, transfer, move_files, record_losses, after_move, move_unread_locked, ensure_boxes,
  move_unread, nothing_moved,
}
use herdr_tools.Mailbox.Writes.{record_capacity-boxes, record_failure-boxes, box-set_box}

pub box-ensure_box : (m k : String) (s : State) → box m (ensure_box k s) ≡ box m s
unfolding ensure_box
box-ensure_box m k s = ground (arith, get-put k m no_mail s.boxes, eq_iff k m)

module _ (from to : String) (distinct : from ≢ to) (j x : String) where
  -- An event is unread at the source, or it left the source and is unread at the destination.
  unfoldable IsHeld : State → Type 0
  IsHeld s =
      (get j (box from s).unread ≡ some x)
      ⊎ ((get j (box from s).unread ≡ none) × (get j (box to s).unread ≡ some x))

  transfer-IsHeld :
      (id content : String) (s : State)
      → get id (box from s).unread ≡ some content
      → IsHeld s
      → IsHeld (transfer from to id content s)
  unfolding transfer IsHeld
  transfer-IsHeld id content s e h =
      let b = record (box from s) { unread = remove id (box from s).unread } in
      let t = set_box from b s in
      let d = record (box to t) { unread = put id content (box to t).unread } in
      ground (
        arith,
        box-set_box from from b s,
        box-set_box to from b s,
        box-set_box from to d t,
        box-set_box to to d t,
        eq_refl from,
        eq_refl to,
        eq_iff from to,
        eq_iff to from,
        eq_iff id j,
        get-remove id j (box from s).unread,
        get-put id j content (box to s).unread,
      )

  same_boxes-IsHeld : (s t : State) → t.boxes ≡ s.boxes → IsHeld s → IsHeld t
  unfolding IsHeld
  same_boxes-IsHeld s t e h = ground arith

  move_files-IsHeld :
      (io : Io) (ids : List String) (out : MoveOutcome) (s : State)
      → IsHeld s
      → IsHeld (move_files io from to ids out s).1
  unfolding move_files
  move_files-IsHeld io [] out s h = h
  move_files-IsHeld io (id ∷ ids) out s h = elim (Option-cases (get id (box from s).unread)) [
    | inr (content, e) ↦
        let a =
          move_files-IsHeld io ids (record out { moved = out.moved ++ id ∷ [] })
            (transfer from to id content s) (transfer-IsHeld id content s e h) in
        ground arith
    | inl e ↦
        let a =
          move_files-IsHeld io ids
            (record out { already_at_destination = out.already_at_destination ++ id ∷ [] }) s h in
        let b = move_files-IsHeld io ids (record out { lost = out.lost ++ id ∷ [] }) s h in
        ground arith
  ]

  record_losses-IsHeld :
      (io : Io) (ids : List String) (s : State) → IsHeld s → IsHeld (record_losses io from ids s)
  unfolding record_losses
  record_losses-IsHeld io [] s h = h
  record_losses-IsHeld io (id ∷ ids) s h =
      let t = (record_failure io from none s).1 in
      record_losses-IsHeld io ids t (same_boxes-IsHeld s t (record_failure-boxes io from none s) h)

  after_move-IsHeld :
      (io : Io) (r : Result MoveOutcome × State) → IsHeld r.1 → IsHeld (after_move io from r).1
  unfolding after_move
  after_move-IsHeld io (err e, s) h = h
  after_move-IsHeld io (ok out, s) h =
      let t = record_losses io from out.lost s in
      same_boxes-IsHeld t (record_capacity io (scan_counts t.boxes) t)
        (record_capacity-boxes io (scan_counts t.boxes) t) (record_losses-IsHeld io out.lost s h)

  ensure_box-IsHeld : (k : String) (s : State) → IsHeld s → IsHeld (ensure_box k s)
  unfolding IsHeld
  ensure_box-IsHeld k s h = ground (arith, box-ensure_box from k s, box-ensure_box to k s)

  ensure_boxes-IsHeld : (keys : List String) (s : State) → IsHeld s → IsHeld (ensure_boxes keys s)
  unfolding ensure_boxes
  ensure_boxes-IsHeld [] s h = h
  ensure_boxes-IsHeld (k ∷ ks) s h =
      ensure_boxes-IsHeld ks (ensure_box k s) (ensure_box-IsHeld k s h)

  move_unread_locked-IsHeld :
      (io : Io) (ids : List String) (s : State)
      → IsHeld s
      → IsHeld (move_unread_locked io from to ids s).1
  unfolding move_unread_locked
  move_unread_locked-IsHeld io ids s h =
      let t = ensure_box to (ensure_box from s) in
      after_move-IsHeld io (move_files io from to ids nothing_moved t) (
        move_files-IsHeld io ids nothing_moved t
          (ensure_box-IsHeld to (ensure_box from s) (ensure_box-IsHeld from s h)))

  move_unread-IsHeld :
      (io : Io) (ids : List String) (s : State) → IsHeld s → IsHeld (move_unread io from to ids s).1
  unfolding move_unread
  move_unread-IsHeld io ids s h =
      let t = ensure_boxes (sort text_before (from ∷ to ∷ [])) s in
      let a = ensure_boxes-IsHeld (sort text_before (from ∷ to ∷ [])) s h in
      let b = move_unread_locked-IsHeld io ids t a in ground arith

move_unread-itself :
    (io : Io) (key : String) (ids : List String) (s : State) → (move_unread io key key ids s).1 ≡ s
unfolding move_unread
move_unread-itself io key ids s = ground (arith, eq_refl key)

-- An event that is unread at the source before a move of any events, under any environment and with
-- any outcome, is unread with the same content at the source or at the destination after it.
pub move_unread-conserves :
    (io : Io) (from to : String) (ids : List String) (s : State) (j x : String)
    → get j (box from s).unread ≡ some x
    → (get j (box from (move_unread io from to ids s).1).unread ≡ some x)
      ⊎ (get j (box to (move_unread io from to ids s).1).unread ≡ some x)
unfolding IsHeld
move_unread-conserves io from to ids s j x h = elim (Bool-cases (from == to)) [
  | inl e ↦
      let same : from ≡ to = ground (arith, eq_iff from to) in
      let stays = move_unread-itself io from ids s in inl cc
  | inr e ↦
      let other : from ≢ to = ground (arith, eq_iff from to) in
      ground (arith, move_unread-IsHeld from to other j x io ids s (inl h))
]
