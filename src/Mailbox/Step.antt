-- ===== src/Mailbox/Step.antt =====
-- src/daemon/mailbox.ts: any operation that changes a mailbox, and histories of them.
use herdr_tools.Base.{String, List, [], ◌∷◌, Option}
use herdr_tools.Mailbox.{ack, check_launch_capacity, retry_pending_gaps}
use herdr_tools.Mailbox.Event.{Codec, RunInput, GapInput}
use herdr_tools.Mailbox.Boxes.{State, Result, Io}
use herdr_tools.Mailbox.Admission.{write_run_event, write_gap_event}
use herdr_tools.Mailbox.Move.{move_unread}

pub data Op : Type 0 where
  writes_run : RunInput → Op
  writes_gap : String → GapInput → Op
  retries_gaps : Op
  checks_launch : String → Op
  acks : String → String → Op
  moves : String → String → List String → Op

module _ (c : Codec) (owner_of_run : Option (String → Result String)) where
  unfoldable pub step : Io → Op → State → State
  unfolding write_run_event write_gap_event retry_pending_gaps check_launch_capacity ack move_unread
  step io (writes_run input) s = (write_run_event c owner_of_run io input s).1
  step io (writes_gap key gap) s = (write_gap_event c io key gap s).1
  step io retries_gaps s = retry_pending_gaps c io s
  step io (checks_launch key) s = (check_launch_capacity io key s).1
  step io (acks key id) s = (ack io key id s).1
  step io (moves from to ids) s = (move_unread io from to ids s).1

  unfoldable pub run : List (Io × Op) → State → State
  unfolding step
  run [] s = s
  run ((io, op) ∷ ops) s = run ops (step io op s)
