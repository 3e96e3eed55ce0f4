-- ===== src/Supervision/SelfClose/Tests.antt =====
-- The close tracker on concrete calls.
use herdr_tools.Base.{◌≡◌, refl, ◌+◌, ◌≤◌, true, false, List, [], ◌∷◌, ◌++◌, length, arith}
use herdr_tools.Base.Distinct.{Distinct}
use herdr_tools.Supervision.SelfClose.{
  Tracker, Handle, at_once, promised, Call, begins, finishes, consumes, new_tracker, calls,
  max_entries, consume, finish,
}
use herdr_tools.Supervision.SelfClose.Table.{panes}
use herdr_tools.Supervision.SelfClose.Shape.{yes}
use herdr_tools.Supervision.SelfClose.Conserved.{
  suppressed_in, successes, calls-room, calls-suppressed,
}
use herdr_tools.Supervision.SelfClose.Outcome.{IsOpen, finish-consume}

abbrev first : Handle
first = record { attempt = 0; pane_id = "p1" }

abbrev second : Handle
second = record { attempt = 1; pane_id = "p1" }

-- A close that is claimed in flight, one that is superseded, and one whose success comes first.
abbrev day : List Call
day =
    begins 10 "p1"
    ∷ consumes 20 "p1"
    ∷ finishes 30 31 first true
    ∷ begins 40 "p1"
    ∷ finishes 45 46 second true
    ∷ consumes 50 "p1"
    ∷ consumes 60 "p1"
    ∷ []

day_replies : (calls day new_tracker).0 ≡ promised 0 ∷ at_once true ∷ at_once false ∷ []
unfolding calls
day_replies = refl

day_answers : (calls day new_tracker).1.answers ≡ (0, true) ∷ []
unfolding calls
day_answers = refl

-- A marker that has expired suppresses nothing.
late_replies :
    (calls (begins 10 "p1" ∷ finishes 20 20 first true ∷ consumes 60_020 "p1" ∷ []) new_tracker).0
    ≡ at_once false ∷ []
unfolding calls
late_replies = refl

calls-room_example :
    (length (calls day new_tracker).1.entries ≤ max_entries)
    × Distinct (panes (calls day new_tracker).1.entries)
calls-room_example = calls-room day

calls-suppressed_example :
    suppressed_in (calls day new_tracker).0 + yes (calls day new_tracker).1.answers ≤ successes day
calls-suppressed_example = calls-suppressed day

abbrev claimed_day : List Call
claimed_day = begins 10 "p1" ∷ consumes 20 "p1" ∷ []

abbrev begun : Tracker
begun = (calls (begins 10 "p1" ∷ []) new_tracker).1

begun-IsOpen : IsOpen first 60_010 begun
unfolding calls
begun-IsOpen = record {
  entry = record {
    attempt = 0;
    pane_id = "p1";
    deadline = 60_010;
    confirmed = false;
    claimed = false;
    waiters = [];
  };
  found = refl;
  attempt = refl;
  pane = refl;
  due = refl;
  unconfirmed = refl;
  unclaimed = refl;
  alone = refl;
  unfinished = refl;
}

finish-consume_example :
    ((consume 20 "p1" begun).0 ≡ promised begun.next_claim)
    × ((finish 30 31 first true (consume 20 "p1" begun).1).answers
        ≡ begun.answers ++ (begun.next_claim, true) ∷ [])
finish-consume_example =
    finish-consume 20 30 31 60_010 first true begun begun-IsOpen (omega arith) (omega arith)
