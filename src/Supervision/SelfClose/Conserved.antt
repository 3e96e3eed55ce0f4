-- ===== src/Supervision/SelfClose/Conserved.antt =====
-- Every call on the tracker of src/supervision/self-close.ts keeps its invariant: what is admitted is
-- bounded, no claim is lost or answered twice, and no more wakes are suppressed than closes succeed.
use herdr_tools.Base.{
  ℕ, ◌+◌, ◌≤◌, ◌≡◌, refl, ◌||◌, List, [], ◌∷◌, Option, none, some, any, length, eqb, arith, if_rule,
}
use herdr_tools.Base.Distinct.{Distinct}
use herdr_tools.Supervision.SelfClose.{
  Tracker, Claim, Call, begins, finishes, consumes, expires, subscribes, unsubscribes, clears,
  add_reply, consume, on_pane_closed, unsubscribe, new_tracker, call, calls, max_entries,
}
use herdr_tools.Supervision.SelfClose.Table.{panes}
use herdr_tools.Supervision.SelfClose.Shape.{Books, one_if, yes}
use herdr_tools.Supervision.SelfClose.Steps.{
  Books-as, Books-weaker, Books-begin, Books-finish, Books-consume, Books-expire, Books-clear,
  suppressed, success,
}

Books-on_pane_closed :
    (l : ℕ) (t : Tracker) (s g : ℕ) → Books t s g → Books (on_pane_closed l t) s g
unfolding on_pane_closed
Books-on_pane_closed l t s g k =
    if_rule (λ u. Books u s g) (t.cleared || any (λ m. eqb m l) t.closed_listeners) _ _ (λ c. k)
      (λ live. Books-as t _ s g refl refl refl k)

Books-call :
    (c : Call) (t : Tracker) (s g : ℕ)
    → Books t s g
    → Books (call c t).1 (s + suppressed (call c t).0) (g + success c)
unfolding call unsubscribe
Books-call (begins at pane) t s g k =
    Books-weaker _ s (s + 0) g (g + 0) (omega arith) (Books-begin at pane t s g k)
Books-call (finishes at later h confirmed) t s g k =
    let g' = g + one_if confirmed in
    Books-weaker _ s (s + 0) g' g' (omega arith) (Books-finish at later h confirmed t s g k)
Books-call (consumes at pane) t s g k =
    let s' = s + suppressed (some (consume at pane t).0) in
    Books-weaker _ s' s' g (g + 0) (omega arith) (Books-consume at pane t s g k)
Books-call (expires h) t s g k =
    Books-weaker _ s (s + 0) g (g + 0) (omega arith) (Books-expire h t s g k)
Books-call (subscribes l) t s g k =
    Books-weaker _ s (s + 0) g (g + 0) (omega arith) (Books-on_pane_closed l t s g k)
Books-call (unsubscribes l) t s g k =
    Books-weaker _ s (s + 0) g (g + 0) (omega arith) (Books-as t _ s g refl refl refl k)
Books-call clears t s g k = Books-weaker _ s (s + 0) g (g + 0) (omega arith) (Books-clear t s g k)

unfoldable pub suppressed_in : List Claim → ℕ
suppressed_in [] = 0
suppressed_in (c ∷ cs) = suppressed (some c) + suppressed_in cs

unfoldable pub successes : List Call → ℕ
successes [] = 0
successes (c ∷ cs) = success c + successes cs

pub suppressed_in-add_reply :
    (r : Option Claim) (rs : List Claim)
    → suppressed_in (add_reply r rs) ≡ suppressed r + suppressed_in rs
unfolding suppressed_in
suppressed_in-add_reply none rs = omega arith
suppressed_in-add_reply (some c) rs = refl

pub Books-calls :
    (cs : List Call) (t : Tracker) (s g : ℕ)
    → Books t s g
    → Books (calls cs t).1 (s + suppressed_in (calls cs t).0) (g + successes cs)
unfolding calls suppressed_in successes
Books-calls [] t s g k = Books-weaker t s (s + 0) g (g + 0) (omega arith) k
Books-calls (c ∷ cs) t s g k =
    let (r, u) = call c t in
    let later = Books-calls cs u (s + suppressed r) (g + success c) (Books-call c t s g k) in
    let n = suppressed_in-add_reply r (calls cs u).0 in Books-weaker _ _ _ _ _ (omega arith) later

pub Books-new_tracker : Books new_tracker 0 0
unfolding Distinct
Books-new_tracker = record {
  room = omega arith;
  distinct = tt;
  shaped = tt;
  balance = omega arith;
  credit = omega arith;
}

-- After any calls on a new tracker, at most `max_entries` attempts are tracked, no two of them of one
-- pane.
pub calls-room :
    (cs : List Call)
    → (length (calls cs new_tracker).1.entries ≤ max_entries)
      × Distinct (panes (calls cs new_tracker).1.entries)
calls-room cs = let k = Books-calls cs new_tracker 0 0 Books-new_tracker in (k.room, k.distinct)

-- After any calls on a new tracker, the wakes suppressed, at once or by the answer of a promise, are no
-- more than the closes that were reported successful.
pub calls-suppressed :
    (cs : List Call)
    → suppressed_in (calls cs new_tracker).0 + yes (calls cs new_tracker).1.answers ≤ successes cs
calls-suppressed cs =
    let k = Books-calls cs new_tracker 0 0 Books-new_tracker in let c = k.credit in omega arith
