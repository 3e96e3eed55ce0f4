-- ===== src/Mailbox/Move.antt =====
-- src/daemon/mailbox.ts: the move of unread events to another manager's mailbox.
use herdr_tools.Base.{
  true, false, not, ◌&&◌, String, ◌==◌, List, [], ◌∷◌, ◌++◌, none, some, all, is_some, text_before,
  if◌then◌else◌,
}
use herdr_tools.Base.Dict.{get, put, remove}
use herdr_tools.Base.Sort.{sort}
use herdr_tools.Mailbox.Event.{event_invalid, unavailable, is_event_id, is_manager_key}
use herdr_tools.Mailbox.Boxes.{State, Result, ok, err, Io, ensure_box, box, scan_counts}
use herdr_tools.Mailbox.Admission.{record_failure, record_capacity, set_box}

-- `MailboxMoveOutcome`.
pub record MoveOutcome : Type 0 where
  pub moved : List String
  pub already_at_destination : List String
  pub lost : List String

abbrev pub nothing_moved : MoveOutcome
nothing_moved = record { moved = []; already_at_destination = []; lost = [] }

-- The rename of one event file between two directories.
unfoldable pub transfer : String → String → String → String → State → State
transfer from to id content s =
    let t = set_box from (record (box from s) { unread = remove id (box from s).unread }) s in
    set_box to (record (box to t) { unread = put id content (box to t).unread }) t

-- The loop over the identifiers; a rename that fails with another error ends it.
unfoldable pub move_files :
    Io → String → String → List String → MoveOutcome → State → Result MoveOutcome × State
unfolding transfer
move_files io from to [] out s = (ok out, s)
move_files io from to (id ∷ ids) out s = elim (get id (box from s).unread) [
  | some content ↦ elim (io.renames id) [
    | true ↦
        move_files io from to ids (record out { moved = out.moved ++ id ∷ [] })
          (transfer from to id content s)
    | false ↦ (err unavailable, s)
  ]
  | none ↦ elim (is_some (get id (box to s).unread)) [
    | true ↦
        move_files io from to ids
          (record out { already_at_destination = out.already_at_destination ++ id ∷ [] }) s
    | false ↦ move_files io from to ids (record out { lost = out.lost ++ id ∷ [] }) s
  ]
]

-- One loss account for each event that is on neither side.
unfoldable pub record_losses : Io → String → List String → State → State
unfolding record_failure
record_losses io from [] s = s
record_losses io from (id ∷ ids) s = record_losses io from ids (record_failure io from none s).1

unfoldable pub after_move : Io → String → Result MoveOutcome × State → Result MoveOutcome × State
unfolding record_losses record_capacity scan_counts
after_move io from (err e, s) = (err e, s)
after_move io from (ok out, s) =
    let t = record_losses io from out.lost s in (ok out, record_capacity io (scan_counts t.boxes) t)

-- `moveUnreadLocked`.
unfoldable pub move_unread_locked :
    Io → String → String → List String → State → Result MoveOutcome × State
unfolding ensure_box move_files after_move
move_unread_locked io from to ids s =
    after_move io from (move_files io from to ids nothing_moved (ensure_box to (ensure_box from s)))

unfoldable pub ensure_boxes : List String → State → State
unfolding ensure_box
ensure_boxes [] s = s
ensure_boxes (k ∷ ks) s = ensure_boxes ks (ensure_box k s)

-- `moveUnread`: the locks are taken in the order of the keys.
unfoldable pub move_unread : Io → String → String → List String → State → Result MoveOutcome × State
unfolding is_manager_key is_event_id ensure_boxes sort text_before move_unread_locked
move_unread io from to ids s =
    if not (is_manager_key from && (is_manager_key to && (not (from == to) && all is_event_id ids)))
    then (err event_invalid, s)
    else if not io.trusted
    then (err unavailable, s)
    else let t = ensure_boxes (sort text_before (from ∷ to ∷ [])) s in
      if io.locked then move_unread_locked io from to ids t else (err unavailable, t)
