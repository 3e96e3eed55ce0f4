-- ===== src/Supervision/SelfClose.antt =====
-- src/supervision/self-close.ts: the correlation of a close of this host with the wake that one of
-- its own supervisors would send. An attempt's number stands for the identity of its entry object,
-- a claim's for its promise. What a listener does is not modelled: only that it is called.
pub mod Table
pub mod Shape
pub mod Steps
pub mod Conserved
pub mod Retired
pub mod Outcome
mod Tests
use herdr_tools.Base.{
  ℕ, zero, suc, ◌+◌, Bool, true, false, not, ◌||◌, String, ◌==◌, List, [], ◌∷◌, ◌++◌, Option, none,
  some, any, keep, map, length, leb, eqb, if◌then◌else◌,
}

abbrev pub pending_ttl_ms : ℕ
pending_ttl_ms = 60_000

abbrev pub confirmed_ttl_ms : ℕ
confirmed_ttl_ms = 60_000

abbrev pub max_entries : ℕ
max_entries = 128

-- `SelfCloseEntry`: its waiters are the claims that wait for it.
pub record Entry : Type 0 where
  pub attempt : ℕ
  pub pane_id : String
  pub deadline : ℕ
  pub confirmed : Bool
  pub claimed : Bool
  pub waiters : List ℕ

-- The variables of `createSelfCloseTracker`, with the flag `finished` of every entry there was,
-- and what came out of it: the promises resolved and the listeners called, oldest first.
pub record Tracker : Type 0 where
  pub entries : List Entry
  pub closed_listeners : List ℕ
  pub cleared : Bool
  pub finished : List ℕ
  pub next_attempt : ℕ
  pub next_claim : ℕ
  pub answers : List (ℕ × Bool)
  pub notices : List (ℕ × String)

-- What a finisher is bound to; none is the finisher that does nothing.
pub record Handle : Type 0 where
  pub attempt : ℕ
  pub pane_id : String

-- What `consume` gives: an answer at once, or the promise of one.
pub data Claim : Type 0 where
  at_once : Bool → Claim
  promised : ℕ → Claim

unfoldable pub entry_of : String → List Entry → Option Entry
entry_of pane [] = none
entry_of pane (e ∷ es) = if e.pane_id == pane then some e else entry_of pane es

unfoldable pub without : String → List Entry → List Entry
without pane [] = []
without pane (e ∷ es) = if e.pane_id == pane then es else e ∷ without pane es

-- An assignment to the fields of the entry of a pane.
unfoldable pub replaced : String → Entry → List Entry → List Entry
replaced pane f [] = []
replaced pane f (e ∷ es) = if e.pane_id == pane then f ∷ es else e ∷ replaced pane f es

-- `notifyClosed`.
unfoldable pub notify_closed : String → Tracker → Tracker
notify_closed pane t = record t {
  notices = t.notices ++ map (λ listener. (listener, pane)) t.closed_listeners;
}

-- `retire`.
unfoldable pub retire : Entry → Bool → Tracker → Tracker
unfolding without
retire e suppress t = record t {
  entries = without e.pane_id t.entries;
  answers = t.answers ++ map (λ claim. (claim, suppress)) e.waiters;
}

-- The loops over a copy of the entries that retire those of a test.
unfoldable pub retire_each : (Entry → Bool) → List Entry → Tracker → Tracker
unfolding retire
retire_each test [] t = t
retire_each test (e ∷ es) t = retire_each test es (if test e then retire e false t else t)

abbrev pub is_overdue : ℕ → Entry → Bool
is_overdue at e = leb e.deadline at

-- The entry of an older attempt on the pane gives way.
unfoldable pub supersede : String → Tracker → Tracker
unfolding entry_of retire
supersede pane t = elim (entry_of pane t.entries) [ none ↦ t | some e ↦ retire e false t ]

abbrev pub new_entry : ℕ → ℕ → String → Entry
new_entry at attempt pane = record {
  attempt = attempt;
  pane_id = pane;
  deadline = at + pending_ttl_ms;
  confirmed = false;
  claimed = false;
  waiters = [];
}

unfoldable pub admit : ℕ → String → Tracker → Option Handle × Tracker
admit at pane t = if leb max_entries (length t.entries) then (none, t) else (
  some record { attempt = t.next_attempt; pane_id = pane },
  record t {
    entries = t.entries ++ new_entry at t.next_attempt pane ∷ [];
    next_attempt = suc t.next_attempt;
  },
)

-- `begin`.
unfoldable pub begin : ℕ → String → Tracker → Option Handle × Tracker
unfolding retire_each supersede admit
begin at pane t =
    if t.cleared
    then (none, t)
    else admit at pane (supersede pane (retire_each (is_overdue at) t.entries t))

-- The end of a finisher whose entry is current: `later` is the time of its second reading.
unfoldable pub settle : ℕ → ℕ → Entry → Bool → Tracker → Tracker
unfolding retire notify_closed replaced
settle at later e confirmed t =
    if leb e.deadline at
    then retire e false t
    else if e.claimed
    then retire e confirmed t
    else if not confirmed
    then retire e false t
    else let told = notify_closed e.pane_id t in
      record told {
        entries =
            replaced e.pane_id (record e { confirmed = true; deadline = later + confirmed_ttl_ms })
              told.entries;
      }

-- The finisher.
unfoldable pub finish : ℕ → ℕ → Handle → Bool → Tracker → Tracker
unfolding entry_of settle
finish at later h confirmed t =
    if any (λ a. eqb a h.attempt) t.finished
    then t
    else let marked = record t { finished = h.attempt ∷ t.finished } in
      elim (entry_of h.pane_id t.entries) [
        | none ↦ marked
        | some e ↦ if eqb e.attempt h.attempt then settle at later e confirmed marked else marked
      ]

unfoldable pub claim : ℕ → Entry → Tracker → Claim × Tracker
unfolding retire replaced
claim at e t =
    if leb e.deadline at
    then (at_once false, retire e false t)
    else if e.confirmed
    then (at_once true, retire e true t)
    else if e.claimed
    then (at_once false, t)
    else (
      promised t.next_claim,
      record t {
        entries =
            replaced e.pane_id
              (record e { claimed = true; waiters = e.waiters ++ t.next_claim ∷ [] }) t.entries;
        next_claim = suc t.next_claim;
      },
    )

-- `consume`.
unfoldable pub consume : ℕ → String → Tracker → Claim × Tracker
unfolding notify_closed entry_of claim
consume at pane t =
    let told = notify_closed pane t in
    elim (entry_of pane told.entries) [ none ↦ (at_once false, told) | some e ↦ claim at e told ]

-- The timer of an entry. It is cleared where the entry is retired, so it finds its entry current.
unfoldable pub expire : Handle → Tracker → Tracker
unfolding entry_of retire
expire h t = elim (entry_of h.pane_id t.entries) [
  | none ↦ t
  | some e ↦ if eqb e.attempt h.attempt then retire e false t else t
]

-- `onPaneClosed`, whose set has a listener once, and the function it returns.
unfoldable pub on_pane_closed : ℕ → Tracker → Tracker
on_pane_closed listener t =
    if t.cleared || any (λ l. eqb l listener) t.closed_listeners
    then t
    else record t { closed_listeners = t.closed_listeners ++ listener ∷ [] }

unfoldable pub unsubscribe : ℕ → Tracker → Tracker
unsubscribe listener t = record t {
  closed_listeners = keep (λ l. not (eqb l listener)) t.closed_listeners;
}

-- `clear`.
unfoldable pub clear : Tracker → Tracker
unfolding retire_each
clear t =
    if t.cleared
    then t
    else let retired = retire_each (λ e. true) t.entries (record t { cleared = true }) in
      record retired { closed_listeners = [] }

abbrev pub new_tracker : Tracker
new_tracker = record {
  entries = [];
  closed_listeners = [];
  cleared = false;
  finished = [];
  next_attempt = 0;
  next_claim = 0;
  answers = [];
  notices = [];
}

-- The calls of a host, in the order they are made.
pub data Call : Type 0 where
  begins : ℕ → String → Call
  finishes : ℕ → ℕ → Handle → Bool → Call
  consumes : ℕ → String → Call
  expires : Handle → Call
  subscribes : ℕ → Call
  unsubscribes : ℕ → Call
  clears : Call

unfoldable pub call : Call → Tracker → Option Claim × Tracker
unfolding begin finish consume expire on_pane_closed unsubscribe clear
call (begins at pane) t = (none, (begin at pane t).1)
call (finishes at later h confirmed) t = (none, finish at later h confirmed t)
call (consumes at pane) t = let (c, u) = consume at pane t in (some c, u)
call (expires h) t = (none, expire h t)
call (subscribes l) t = (none, on_pane_closed l t)
call (unsubscribes l) t = (none, unsubscribe l t)
call clears t = (none, clear t)

abbrev pub add_reply : Option Claim → List Claim → List Claim
add_reply none rs = rs
add_reply (some c) rs = c ∷ rs

unfoldable pub calls : List Call → Tracker → List Claim × Tracker
unfolding call
calls [] t = ([], t)
calls (c ∷ cs) t = let (r, u) = call c t in let (rs, v) = calls cs u in (add_reply r rs, v)
