-- ===== src/Supervision/SelfClose/Steps.antt =====
-- Every operation on the tracker of src/supervision/self-close.ts keeps its invariant.
use herdr_tools.Base.{
  ℕ, suc, ◌+◌, ◌≤◌, ◌≡◌, ◌≢◌, refl, sym, ap, subst, ◌∙◌, Bool, true, false, not, String, eq_iff,
  List, [], ◌∷◌, ◌++◌, Option, none, some, any, length, length-append, leb, eqb, arith, All,
  All-append, inl, inr, Bool-cases, if_rule, option_rule,
}
use herdr_tools.Base.Distinct.{Distinct, Fresh}
use herdr_tools.Supervision.SelfClose.{
  Entry, Tracker, Handle, Claim, at_once, promised, Call, finishes, entry_of, without,
  notify_closed, retire, retire_each, is_overdue, new_entry, supersede, admit, begin, settle,
  finish, claim, consume, expire, clear, max_entries, confirmed_ttl_ms,
}
use herdr_tools.Supervision.SelfClose.Table.{
  panes, IsCurrent, entry_of-IsCurrent, entry_of-All, total-append, pane_id-entry_of, Fresh-without,
}
use herdr_tools.Supervision.SelfClose.Shape.{
  IsShaped, Books, Books-retire, Books-retire-false, Books-retire_each, AllCurrent-self,
  Books-replaced, one_if, waiting, ready, yes,
}

-- The invariant reads the entries, the answers and the number of claims alone.
pub Books-as :
    (t u : Tracker) (s g : ℕ)
    → t.entries ≡ u.entries
    → t.answers ≡ u.answers
    → t.next_claim ≡ u.next_claim
    → Books t s g
    → Books u s g
Books-as t u s g e a n k = record {
  room = subst (λ es. length es ≤ max_entries) e k.room;
  distinct = subst (λ es. Distinct (panes es)) e k.distinct;
  shaped = subst (λ es. All IsShaped es) e k.shaped;
  balance =
      ap (λ es. waiting es + length u.answers) (sym e)
      ∙ ap (λ xs. waiting t.entries + length xs) (sym a)
      ∙ k.balance
      ∙ n;
  credit =
      subst (λ es. s + yes u.answers + ready es ≤ g) e
        (subst (λ xs. s + yes xs + ready t.entries ≤ g) a k.credit);
}

none-Fresh : (pane : String) (es : List Entry) → entry_of pane es ≡ none → Fresh pane (panes es)
unfolding entry_of
none-Fresh pane [] h = tt
none-Fresh pane (e ∷ es) h =
    (ground (arith, eq_iff e.pane_id pane), none-Fresh pane es (ground arith))

snoc-Fresh :
    (x : String) (e : Entry) (es : List Entry)
    → e.pane_id ≢ x
    → Fresh x (panes es)
    → Fresh x (panes (es ++ e ∷ []))
snoc-Fresh x e [] n f = (n, tt)
snoc-Fresh x e (g ∷ es) n (m, f) = (m, snoc-Fresh x e es n f)

snoc-Distinct :
    (e : Entry) (es : List Entry)
    → Fresh e.pane_id (panes es)
    → Distinct (panes es)
    → Distinct (panes (es ++ e ∷ []))
unfolding Distinct
snoc-Distinct e [] f d = (tt, tt)
snoc-Distinct e (g ∷ es) (n, f) (m, d) =
    (snoc-Fresh g.pane_id e es (λ q. n (sym q)) m, snoc-Distinct e es f d)

Books-admit :
    (at : ℕ) (pane : String) (t : Tracker) (s g : ℕ)
    → Fresh pane (panes t.entries)
    → Books t s g
    → Books (admit at pane t).1 s g
unfolding admit IsShaped
Books-admit at pane t s g f k = elim (Bool-cases (leb max_entries (length t.entries))) [
  | inl full ↦ rw full k
  | inr free ↦
      let e = new_entry at t.next_attempt pane in
      let size = length-append t.entries (e ∷ []) in
      let waits : waiting (t.entries ++ e ∷ []) ≡ waiting t.entries + 0 =
        total-append (λ (x : Entry). length x.waiters) t.entries (e ∷ []) in
      let readies : ready (t.entries ++ e ∷ []) ≡ ready t.entries + 0 =
        total-append (λ (x : Entry). one_if x.confirmed) t.entries (e ∷ []) in
      let balance : waiting (t.entries ++ e ∷ []) + length t.answers ≡ t.next_claim =
        let before = k.balance in omega arith in
      let credit : s + yes t.answers + ready (t.entries ++ e ∷ []) ≤ g =
        let before = k.credit in omega arith in
      let shaped : IsShaped e = (refl, refl) in
      let room : length t.entries + 1 ≤ max_entries = ground arith in
      rw free record {
        room = omega arith;
        distinct = snoc-Distinct e t.entries f k.distinct;
        shaped = All-append IsShaped t.entries (e ∷ []) k.shaped (shaped, tt);
        balance = balance;
        credit = credit;
      }
]

-- After a supersession the pane has no entry.
Books-supersede :
    (pane : String) (t : Tracker) (s g : ℕ)
    → Books t s g
    → Books (supersede pane t) s g × Fresh pane (panes (supersede pane t).entries)
unfolding supersede retire
Books-supersede pane t s g k =
    option_rule (λ u. Books u s g × Fresh pane (panes u.entries)) (entry_of pane t.entries) _ _
      (λ free. (k, none-Fresh pane t.entries free))
      (λ e taken.
        let same = pane_id-entry_of pane e t.entries taken in
        let fresh = Fresh-without pane e t.entries k.distinct taken in
        (
          Books-retire-false e t s g (entry_of-IsCurrent pane e t.entries taken) k,
          subst (λ p. Fresh pane (panes (without p t.entries))) same fresh,
        ))

pub Books-begin :
    (at : ℕ) (pane : String) (t : Tracker) (s g : ℕ) → Books t s g → Books (begin at pane t).1 s g
unfolding begin
Books-begin at pane t s g k =
    if_rule (λ (r : Option Handle × Tracker). Books r.1 s g) t.cleared _ _ (λ c. k)
      (λ c.
        let swept =
          Books-retire_each (is_overdue at) t.entries t s g (AllCurrent-self t.entries k.distinct)
            k in
        let u = retire_each (is_overdue at) t.entries t in
        let freed = Books-supersede pane u s g swept in
        Books-admit at pane (supersede pane u) s g freed.1 freed.0)

-- What a call adds to the wakes suppressed at once, and to the successes reported.
abbrev pub suppressed : Option Claim → ℕ
suppressed none = 0
suppressed (some (at_once b)) = one_if b
suppressed (some (promised c)) = 0

abbrev pub success : Call → ℕ
success (finishes at later h confirmed) = one_if confirmed
success _ = 0

pub Books-weaker : (t : Tracker) (s s' g g' : ℕ) → s' + g ≤ g' + s → Books t s g → Books t s' g'
Books-weaker t s s' g g' h k = record {
  room = k.room;
  distinct = k.distinct;
  shaped = k.shaped;
  balance = k.balance;
  credit = let before = k.credit in omega arith;
}

Books-settle :
    (at later : ℕ) (e : Entry) (confirmed : Bool) (t : Tracker) (s g : ℕ)
    → IsCurrent e t.entries
    → Books t s g
    → Books (settle at later e confirmed t) s (g + one_if confirmed)
unfolding settle notify_closed IsShaped
Books-settle at later e confirmed t s g c k =
    let g' = g + one_if confirmed in
    let shaped : IsShaped e = entry_of-All IsShaped e.pane_id e t.entries k.shaped c in
    let lost =
      Books-weaker (retire e false t) s s g g' (omega arith) (Books-retire-false e t s g c k) in
    if_rule (λ u. Books u s g') (leb e.deadline at) _ _ (λ late. lost)
      (λ early.
        if_rule (λ u. Books u s g') e.claimed _ _
          (λ claimed. Books-retire e confirmed t s g s g' c (ground arith) k)
          (λ unclaimed.
            if_rule (λ u. Books u s g') (not confirmed) _ _ (λ failed. lost)
              (λ closed.
                let told = notify_closed e.pane_id t in
                let f = record e { confirmed = true; deadline = later + confirmed_ttl_ms } in
                Books-replaced e f told told.next_claim s g g' refl (ground arith) c refl
                  (ground arith) (Books-as t told s g refl refl refl k))))

pub Books-finish :
    (at later : ℕ) (h : Handle) (confirmed : Bool) (t : Tracker) (s g : ℕ)
    → Books t s g
    → Books (finish at later h confirmed t) s (g + one_if confirmed)
unfolding finish
Books-finish at later h confirmed t s g k =
    let g' = g + one_if confirmed in
    let more = Books-weaker t s s g g' (omega arith) k in
    let marked = record t { finished = h.attempt ∷ t.finished } in
    let kept = Books-as t marked s g' refl refl refl more in
    if_rule (λ u. Books u s g') (any (λ a. eqb a h.attempt) t.finished) _ _ (λ again. more)
      (λ first.
        option_rule (λ u. Books u s g') (entry_of h.pane_id t.entries) _ _ (λ gone. kept)
          (λ e found.
            if_rule (λ u. Books u s g') (eqb e.attempt h.attempt) _ _
              (λ current.
                Books-settle at later e confirmed marked s g
                  (entry_of-IsCurrent h.pane_id e t.entries found)
                  (Books-as t marked s g refl refl refl k))
              (λ other. kept)))

Books-claim :
    (at : ℕ) (e : Entry) (t : Tracker) (s g : ℕ)
    → IsCurrent e t.entries
    → Books t s g
    → Books (claim at e t).1 (s + suppressed (some (claim at e t).0)) g
unfolding claim IsShaped
Books-claim at e t s g c k =
    let P : Claim × Tracker → Type 0 = (λ r. Books r.1 (s + suppressed (some r.0)) g) in
    let shaped : IsShaped e = entry_of-All IsShaped e.pane_id e t.entries k.shaped c in
    if_rule P (leb e.deadline at) _ _
      (λ late. Books-retire e false t s g (s + 0) g c (omega arith) k)
      (λ early.
        if_rule P e.confirmed _ _ (λ closed. Books-retire e true t s g (s + 1) g c (ground arith) k)
          (λ pending.
            if_rule P e.claimed _ _ (λ claimed. Books-weaker t s (s + 0) g g (omega arith) k)
              (λ unclaimed.
                let f = record e { claimed = true; waiters = e.waiters ++ t.next_claim ∷ [] } in
                let n = length-append e.waiters (t.next_claim ∷ []) in
                Books-replaced e f t (suc t.next_claim) (s + 0) g g refl (ground arith) c
                  (ground arith) (ground arith) (Books-weaker t s (s + 0) g g (omega arith) k))))

pub Books-consume :
    (at : ℕ) (pane : String) (t : Tracker) (s g : ℕ)
    → Books t s g
    → Books (consume at pane t).1 (s + suppressed (some (consume at pane t).0)) g
unfolding consume notify_closed
Books-consume at pane t s g k =
    let told = notify_closed pane t in
    let k' = Books-as t told s g refl refl refl k in
    option_rule (λ (r : Claim × Tracker). Books r.1 (s + suppressed (some r.0)) g)
      (entry_of pane t.entries) _ _ (λ gone. Books-weaker told s (s + 0) g g (omega arith) k')
      (λ e found. Books-claim at e told s g (entry_of-IsCurrent pane e t.entries found) k')

pub Books-expire : (h : Handle) (t : Tracker) (s g : ℕ) → Books t s g → Books (expire h t) s g
unfolding expire
Books-expire h t s g k =
    option_rule (λ u. Books u s g) (entry_of h.pane_id t.entries) _ _ (λ gone. k)
      (λ e found.
        if_rule (λ u. Books u s g) (eqb e.attempt h.attempt) _ _
          (λ current. Books-retire-false e t s g (entry_of-IsCurrent h.pane_id e t.entries found) k)
          (λ other. k))

pub Books-clear : (t : Tracker) (s g : ℕ) → Books t s g → Books (clear t) s g
unfolding clear
Books-clear t s g k =
    if_rule (λ u. Books u s g) t.cleared _ _ (λ c. k)
      (λ live.
        let closed = record t { cleared = true } in
        let retired =
          Books-retire_each (λ e. true) t.entries closed s g (AllCurrent-self t.entries k.distinct)
            (Books-as t closed s g refl refl refl k) in
        Books-as (retire_each (λ e. true) t.entries closed) _ s g refl refl refl retired)
