-- ===== src/Supervision/SelfClose/Outcome.antt =====
-- What becomes of one tracked close of src/supervision/self-close.ts whose pane is seen gone.
use herdr_tools.Base.{
  ℕ, suc, ◌+◌, ◌<◌, ◌≡◌, refl, sym, ap, subst, ◌∙◌, Bool, true, false, String, eq_iff, List, [],
  ◌∷◌, ◌++◌, some, any, map, eqb, arith,
}
use herdr_tools.Supervision.SelfClose.{
  Entry, Tracker, Handle, Claim, at_once, promised, entry_of, replaced, notify_closed, retire,
  settle, finish, claim, consume, confirmed_ttl_ms,
}

-- An attempt whose entry is current and new, and whose finisher was not called.
pub record IsOpen (h : Handle) (deadline : ℕ) (t : Tracker) : Type 0 where
  pub entry : Entry
  pub found : entry_of h.pane_id t.entries ≡ some entry
  pub attempt : entry.attempt ≡ h.attempt
  pub pane : entry.pane_id ≡ h.pane_id
  pub due : entry.deadline ≡ deadline
  pub unconfirmed : entry.confirmed ≡ false
  pub unclaimed : entry.claimed ≡ false
  pub alone : entry.waiters ≡ []
  pub unfinished : any (λ a. eqb a h.attempt) t.finished ≡ false

entry_of-replaced :
    (pane : String) (e f : Entry) (es : List Entry)
    → f.pane_id ≡ pane
    → entry_of pane es ≡ some e
    → entry_of pane (replaced pane f es) ≡ some f
unfolding entry_of replaced
entry_of-replaced pane e f [] h k = ground arith
entry_of-replaced pane e f (g ∷ es) h k =
    ground (arith, eq_iff f.pane_id pane, entry_of-replaced pane e f es h)

-- The entry with the claim on it.
abbrev claimed_entry : Entry → ℕ → Entry
claimed_entry e n = record e { claimed = true; waiters = e.waiters ++ n ∷ [] }

abbrev claimed_tracker : Entry → Tracker → Tracker
claimed_tracker e t = record t {
  entries = replaced e.pane_id (claimed_entry e t.next_claim) t.entries;
  next_claim = suc t.next_claim;
}

consume-IsOpen :
    (at deadline : ℕ) (h : Handle) (t : Tracker) (o : IsOpen h deadline t)
    → at < deadline
    → consume at h.pane_id t
      ≡ (promised t.next_claim, claimed_tracker o.entry (notify_closed h.pane_id t))
unfolding consume notify_closed claim
consume-IsOpen at deadline h t o l =
    let f = o.found in let d = o.due in let u = o.unconfirmed in let c = o.unclaimed in ground arith

finish_claimed :
    (at later : ℕ) (h : Handle) (ok : Bool) (f : Entry) (u : Tracker)
    → any (λ a. eqb a h.attempt) u.finished ≡ false
    → entry_of h.pane_id u.entries ≡ some f
    → f.attempt ≡ h.attempt
    → at < f.deadline
    → f.claimed ≡ true
    → (finish at later h ok u).answers ≡ u.answers ++ map (λ c. (c, ok)) f.waiters
unfolding finish settle retire
finish_claimed at later h ok f u fresh found same early claimed = ground arith

-- If the pane of a new attempt, whose finisher was not called, is seen gone before the attempt's
-- deadline, the claim is a promise, and the finisher resolves it with the outcome of the close if
-- it comes before that deadline too.
pub finish-consume :
    (at then_at later deadline : ℕ) (h : Handle) (ok : Bool) (t : Tracker)
    → IsOpen h deadline t
    → at < deadline
    → then_at < deadline
    → ((consume at h.pane_id t).0 ≡ promised t.next_claim)
      × ((finish then_at later h ok (consume at h.pane_id t).1).answers
          ≡ t.answers ++ (t.next_claim, ok) ∷ [])
unfolding notify_closed
finish-consume at then_at later deadline h ok t o l m =
    let seen = consume-IsOpen at deadline h t o l in
    let told = notify_closed h.pane_id t in
    let f = claimed_entry o.entry t.next_claim in
    let u = claimed_tracker o.entry told in
    let found : entry_of h.pane_id u.entries ≡ some f =
      subst (λ p. entry_of h.pane_id (replaced p f t.entries) ≡ some f) (sym o.pane)
        (entry_of-replaced h.pane_id o.entry f t.entries o.pane o.found) in
    let due = o.due in
    let settled =
      finish_claimed then_at later h ok f u o.unfinished found o.attempt (omega arith) refl in
    let one : f.waiters ≡ t.next_claim ∷ [] = ap (λ ws. ws ++ t.next_claim ∷ []) o.alone in
    (
      ap (λ (r : Claim × Tracker). r.0) seen,
      ap (λ (r : Claim × Tracker). (finish then_at later h ok r.1).answers) seen
          ∙ settled
          ∙ ap (λ ws. t.answers ++ map (λ c. (c, ok)) ws) one,
    )

finish_unclaimed :
    (at later : ℕ) (h : Handle) (e : Entry) (t : Tracker)
    → any (λ a. eqb a h.attempt) t.finished ≡ false
    → entry_of h.pane_id t.entries ≡ some e
    → e.attempt ≡ h.attempt
    → at < e.deadline
    → e.claimed ≡ false
    → (finish at later h true t).entries
      ≡ replaced e.pane_id
          (record e { confirmed = true; deadline = later + confirmed_ttl_ms })
          t.entries
unfolding finish settle notify_closed
finish_unclaimed at later h e t fresh found same early unclaimed = ground arith

consume_confirmed :
    (at : ℕ) (pane : String) (e : Entry) (t : Tracker)
    → entry_of pane t.entries ≡ some e
    → at < e.deadline
    → e.confirmed ≡ true
    → (consume at pane t).0 ≡ at_once true
unfolding consume notify_closed claim
consume_confirmed at pane e t found early confirmed = ground arith

-- A pane that is seen gone after its close was reported successful before the attempt's deadline: the
-- claim is suppressed at once, where it comes before the marker of the success expires.
pub consume-finish :
    (at then_at later deadline : ℕ) (h : Handle) (t : Tracker)
    → IsOpen h deadline t
    → at < deadline
    → then_at < later + confirmed_ttl_ms
    → (consume then_at h.pane_id (finish at later h true t)).0 ≡ at_once true
consume-finish at then_at later deadline h t o l m =
    let e = o.entry in
    let f : Entry = record e { confirmed = true; deadline = later + confirmed_ttl_ms } in
    let due = o.due in
    let settled =
      finish_unclaimed at later h e t o.unfinished o.found o.attempt (omega arith) o.unclaimed in
    let found : entry_of h.pane_id (replaced e.pane_id f t.entries) ≡ some f =
      subst (λ p. entry_of h.pane_id (replaced p f t.entries) ≡ some f) (sym o.pane)
        (entry_of-replaced h.pane_id e f t.entries o.pane o.found) in
    consume_confirmed then_at h.pane_id f (finish at later h true t)
      (ap (entry_of h.pane_id) settled ∙ found) m refl
