-- ===== src/Supervision/SelfClose/Shape.antt =====
-- The invariant of the tracker of src/supervision/self-close.ts, and what the retirement and the
-- assignment of an entry do to it.
use herdr_tools.Base.{
  ℕ, ◌+◌, ◌≤◌, ◌≡◌, sym, subst, ◌∙◌, Bool, false, ◌&&◌, List, [], ◌∷◌, ◌++◌, map, length,
  length-append, length-map, eq_iff, eq_refl, if◌then◌else◌, arith, All, inl, inr, Bool-cases,
}
use herdr_tools.Base.Distinct.{Distinct, Fresh}
use herdr_tools.Supervision.SelfClose.{
  Entry, Tracker, entry_of, without, replaced, retire, retire_each, max_entries,
}
use herdr_tools.Supervision.SelfClose.Table.{
  total, panes, IsCurrent, total-without, total-replaced, length-without, length-replaced,
  without-All, replaced-All, without-Distinct, panes-replaced, without-entry_of,
}

-- An entry has the one claim that was made on it as its only waiter, and no claim once confirmed.
unfoldable pub IsShaped : Entry → Type 0
IsShaped e =
    (length e.waiters ≡ (if e.claimed then 1 else 0)) × ((e.confirmed && e.claimed) ≡ false)

abbrev pub one_if : Bool → ℕ
one_if b = if b then 1 else 0

abbrev pub waiting : List Entry → ℕ
waiting es = total (λ (e : Entry). length e.waiters) es

abbrev pub ready : List Entry → ℕ
ready es = total (λ (e : Entry). one_if e.confirmed) es

abbrev pub yes : List (ℕ × Bool) → ℕ
yes [] = 0
yes (a ∷ as_) = one_if a.1 + yes as_

pub yes-append : (xs ys : List (ℕ × Bool)) → yes (xs ++ ys) ≡ yes xs + yes ys
yes-append [] ys = omega arith
yes-append (x ∷ xs) ys = omega (arith, yes-append xs ys)

pub yes-map :
    (b : Bool) (claims : List ℕ) → yes (map (λ c. (c, b)) claims) ≡ (if b then length claims else 0)
yes-map b [] = ground arith
yes-map b (c ∷ cs) = ground (arith, yes-map b cs)

-- The invariant, for the wakes that were suppressed at once and the successes that were reported.
pub record Books (t : Tracker) (spent granted : ℕ) : Type 0 where
  pub room : length t.entries ≤ max_entries
  pub distinct : Distinct (panes t.entries)
  pub shaped : All IsShaped t.entries
  pub balance : waiting t.entries + length t.answers ≡ t.next_claim
  pub credit : spent + yes t.answers + ready t.entries ≤ granted

pub Books-retire :
    (e : Entry) (b : Bool) (t : Tracker) (s g s' g' : ℕ)
    → IsCurrent e t.entries
    → s' + (if b then length e.waiters else 0) + g ≤ g' + s + one_if e.confirmed
    → Books t s g
    → Books (retire e b t) s' g'
unfolding retire
Books-retire e b t s g s' g' c h k =
    let left = without e.pane_id t.entries in
    let claims : List (ℕ × Bool) = map (λ (w : ℕ). (w, b)) e.waiters in
    let all : length (t.answers ++ claims) ≡ length t.answers + length claims =
      length-append t.answers claims in
    let new : length claims ≡ length e.waiters = length-map (λ (w : ℕ). (w, b)) e.waiters in
    let y : yes (t.answers ++ claims) ≡ yes t.answers + yes claims = yes-append t.answers claims in
    let z : yes claims ≡ (if b then length e.waiters else 0) = yes-map b e.waiters in
    let waits : waiting left + length e.waiters ≡ waiting t.entries =
      total-without (λ (f : Entry). length f.waiters) e.pane_id e t.entries c in
    let readies : ready left + one_if e.confirmed ≡ ready t.entries =
      total-without (λ (f : Entry). one_if f.confirmed) e.pane_id e t.entries c in
    let less = length-without e.pane_id t.entries in
    let balance : waiting left + length (t.answers ++ claims) ≡ t.next_claim =
      let before = k.balance in omega arith in
    let credit : s' + yes (t.answers ++ claims) + ready left ≤ g' =
      let before = k.credit in omega arith in
    record {
      room = let before = k.room in omega arith;
      distinct = without-Distinct e.pane_id t.entries k.distinct;
      shaped = without-All IsShaped e.pane_id t.entries k.shaped;
      balance = balance;
      credit = credit;
    }

-- An entry that gives way to a wake.
pub Books-retire-false :
    (e : Entry) (t : Tracker) (s g : ℕ)
    → IsCurrent e t.entries
    → Books t s g
    → Books (retire e false t) s g
Books-retire-false e t s g c k = Books-retire e false t s g s g c (omega arith) k

-- The entries of a copy that are still current, each at its pane.
abbrev AllCurrent : List Entry → List Entry → Type 0
AllCurrent es now = All (λ e. IsCurrent e now) es × Distinct (panes es)

Fresh-IsCurrent :
    (e : Entry) (es now : List Entry)
    → Fresh e.pane_id (panes es)
    → All (λ f. IsCurrent f now) es
    → All (λ f. IsCurrent f (without e.pane_id now)) es
Fresh-IsCurrent e [] now f c = tt
Fresh-IsCurrent e (g ∷ es) now (n, f) (p, c) =
    (without-entry_of e.pane_id g.pane_id now (λ q. n (sym q)) ∙ p, Fresh-IsCurrent e es now f c)

pub Books-retire_each :
    (test : Entry → Bool) (es : List Entry) (t : Tracker) (s g : ℕ)
    → AllCurrent es t.entries
    → Books t s g
    → Books (retire_each test es t) s g
unfolding retire_each Distinct retire
Books-retire_each test [] t s g c k = k
Books-retire_each test (e ∷ es) t s g ((p, c), (f, d)) k = elim (Bool-cases (test e)) [
  | inl h ↦ rw h (
      Books-retire_each test es (retire e false t) s g (Fresh-IsCurrent e es t.entries f c, d)
        (Books-retire-false e t s g p k))
  | inr h ↦ rw h (Books-retire_each test es t s g (c, d) k)
]

cons-IsCurrent :
    (e : Entry) (es fs : List Entry)
    → Fresh e.pane_id (panes fs)
    → All (λ f. IsCurrent f es) fs
    → All (λ f. IsCurrent f (e ∷ es)) fs
unfolding entry_of
cons-IsCurrent e es [] f c = tt
cons-IsCurrent e es (g ∷ fs) (n, f) (p, c) =
    (ground (arith, eq_iff e.pane_id g.pane_id), cons-IsCurrent e es fs f c)

-- At first all of them are.
pub AllCurrent-self : (es : List Entry) → Distinct (panes es) → AllCurrent es es
unfolding entry_of Distinct
AllCurrent-self [] d = (tt, d)
AllCurrent-self (e ∷ es) (f, d) =
    ((ground (arith, eq_refl e.pane_id), cons-IsCurrent e es es f (AllCurrent-self es d).0), (f, d))

-- An assignment to an entry that keeps its pane.
pub Books-replaced :
    (e f : Entry) (t : Tracker) (next s g g' : ℕ)
    → f.pane_id ≡ e.pane_id
    → IsShaped f
    → IsCurrent e t.entries
    → t.next_claim + length f.waiters ≡ next + length e.waiters
    → g + one_if f.confirmed ≤ g' + one_if e.confirmed
    → Books t s g
    → Books (record t { entries = replaced e.pane_id f t.entries; next_claim = next }) s g'
Books-replaced e f t next s g g' same shaped c h i k =
    let now = replaced e.pane_id f t.entries in
    let waits : waiting now + length e.waiters ≡ waiting t.entries + length f.waiters =
      total-replaced (λ (x : Entry). length x.waiters) e.pane_id e f t.entries c in
    let readies : ready now + one_if e.confirmed ≡ ready t.entries + one_if f.confirmed =
      total-replaced (λ (x : Entry). one_if x.confirmed) e.pane_id e f t.entries c in
    let size : length now ≡ length t.entries = length-replaced e.pane_id f t.entries in
    let balance : waiting now + length t.answers ≡ next = let before = k.balance in omega arith in
    let credit : s + yes t.answers + ready now ≤ g' = let before = k.credit in omega arith in
    record {
      room = let before = k.room in omega arith;
      distinct = subst (λ ps. Distinct ps) (sym (panes-replaced e f t.entries same)) k.distinct;
      shaped = replaced-All IsShaped e.pane_id f t.entries shaped k.shaped;
      balance = balance;
      credit = credit;
    }
