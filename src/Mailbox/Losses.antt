-- ===== src/Mailbox/Losses.antt =====
-- The refusals of `persistEvent` of src/daemon/mailbox.ts and their accounts in `daemon.json`.
use herdr_tools.Base.{
  Bool-cases, ◌+◌, ◌==◌, if◌then◌else◌, ◌≡◌, refl, sym, ap, subst, true, false, Bool, String,
  Option, some, none, arith, inl, inr,
}
use herdr_tools.Base.Dict.{get, get-put}
use herdr_tools.Mailbox.Event.{Account, GapEvent}
use herdr_tools.Mailbox.Boxes.{State, Io, Written, written, collision, fault, box, link_event}
use herdr_tools.Mailbox.Admission.{
  refused, persist_event, record_failure, refuse_capacity, hold_gap, after_link, account_next,
  Reason,
}
use herdr_tools.Mailbox.Writes.{persist_event-cases, after_file}

-- A loss account after one more loss at `at`: the first one, or one that follows those before.
unfoldable pub IsNext : String → Option Account → Account → Type 0
IsNext at none next = (next.count ≡ 1) × (next.first_at ≡ at) × (next.last_at ≡ at)
IsNext at (some old) next =
    (next.count ≡ old.count + 1) × (next.first_at ≡ old.first_at) × (next.last_at ≡ at)

-- One more loss in the account of a mailbox, seen at the mailbox `m`.
abbrev pub IsCounted : Io → String → String → State → State → Type 0
IsCounted io key m s t =
    (t.degraded ≡ true)
    × ((next : Account) × IsNext io.at (get key s.unpersisted) next
        × (get m t.unpersisted ≡ (if key == m then some next else get m s.unpersisted)))
    × (t.pending_gap ≡ s.pending_gap)

-- The gap itself in `daemon.json`, seen at the mailbox `m`.
abbrev pub IsParked : String → String → Option GapEvent → State → State → Type 0
IsParked key m hold s t =
    (t.degraded ≡ true)
    × ((gap : GapEvent) × (hold ≡ some gap)
        × (get m t.pending_gap ≡ (if key == m then some gap else get m s.pending_gap)))
    × (t.unpersisted ≡ s.unpersisted)

-- What a refusal leaves in `daemon.json`.
unfoldable pub IsAccounted : Io → String → String → Option GapEvent → State → State → Bool → Type 0
IsAccounted io key m hold s t true = IsParked key m hold s t
IsAccounted io key m hold s t false = IsCounted io key m s t

account_next-IsNext : (at : String) (o : Option Account) → IsNext at o (account_next at o)
unfolding IsNext
account_next-IsNext at none = (refl, refl, refl)
account_next-IsNext at (some old) = (refl, refl, refl)

record_failure-IsCounted :
    (io : Io) (key m : String) (s : State)
    → io.status_ok ≡ true
    → IsCounted io key m s (record_failure io key none s).1
unfolding record_failure
record_failure-IsCounted io key m s h =
    let next = account_next io.at (get key s.unpersisted) in
    (
      ground arith,
      (
        next,
        account_next-IsNext io.at (get key s.unpersisted),
        ground (arith, get-put key m next s.unpersisted),
      ),
      ground arith,
    )

refused_at_cap :
    (io : Io) (key m id j at : String) (why : Reason) (held : Bool) (hold : Option GapEvent)
    (s : State)
    → io.status_ok ≡ true
    → (refuse_capacity io key id (hold_gap io key hold s)).0 ≡ refused j why at held
    → IsAccounted io key m hold s (refuse_capacity io key id (hold_gap io key hold s)).1 held
unfolding refuse_capacity hold_gap IsAccounted record_failure
refused_at_cap io key m id j at why true none s ok h = absurd (ground arith)
refused_at_cap io key m id j at why false none s ok h = record_failure-IsCounted io key m s ok
refused_at_cap io key m id j at why true (some g) s ok h =
    (ground arith, (g, refl, ground (arith, get-put key m g s.pending_gap)), ground arith)
refused_at_cap io key m id j at why false (some g) s ok h = elim (Bool-cases io.hold_ok) [
  | inl e ↦ absurd (ground arith)
  | inr e ↦ rw e (record_failure-IsCounted io key m s ok)
]

counted-IsAccounted :
    (io : Io) (key m : String) (hold : Option GapEvent) (s t : State)
    → IsCounted io key m s t
    → IsAccounted io key m hold s t false
unfolding IsAccounted
counted-IsAccounted io key m hold s t c = c

after_link-IsCounted :
    (io : Io) (key m id j at : String) (why : Reason) (held : Bool) (s : State) (o : Written)
    → io.status_ok ≡ true
    → (after_link io key id s o).0 ≡ refused j why at held
    → (held ≡ false) × IsCounted io key m s (after_link io key id s o).1
unfolding after_link
after_link-IsCounted io key m id j at why held s written ok h = ground arith
after_link-IsCounted io key m id j at why held s collision ok h =
    (ground arith, record_failure-IsCounted io key m s ok)
after_link-IsCounted io key m id j at why held s fault ok h =
    (ground arith, record_failure-IsCounted io key m s ok)

-- Where `daemon.json` can be written, a refused write of an event is never silent: the service is
-- marked degraded. If the answer says that the gap is held, the gap that was given is parked under
-- its mailbox, every other mailbox keeps its parked gap, and all loss accounts stay. Otherwise the
-- mailbox's loss account counts one more loss than before, or one where there was none, with the time
-- of the write as its last time and its first time kept, or that time where there was none; every
-- other mailbox keeps its loss account, and all parked gaps stay.
pub refused_IsAccounted :
    (io : Io) (key m id content j at : String) (why : Reason) (held : Bool) (hold : Option GapEvent)
    (s : State)
    → io.status_ok ≡ true
    → (persist_event io key id content hold s).0 ≡ refused j why at held
    → IsAccounted io key m hold s (persist_event io key id content hold s).1 held
refused_IsAccounted io key m id content j at why held hold s ok h =
    elim (persist_event-cases io key id content hold s) [
      | inl (full, e) ↦
          subst (λ t. IsAccounted io key m hold s t held) (sym (ap (λ r. r.1) e))
            (refused_at_cap io key m id j at why held hold s ok (cc (h, e)))
      | inr (spare, e) ↦
          let (n, c) =
            after_link-IsCounted io key m id j at why held
              (after_file io key id content hold s
                (link_event io.write id content (box key s).unread).1)
              (link_event io.write id content (box key s).unread).0 ok (cc (h, e)) in
          subst (λ b. IsAccounted io key m hold s (persist_event io key id content hold s).1 b)
            (sym n)
            (subst (λ t. IsAccounted io key m hold s t false) (sym (ap (λ r. r.1) e))
              (counted-IsAccounted io key m hold s _ c))
    ]
