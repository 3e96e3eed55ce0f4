-- ===== src/Supervision/Continuity.antt =====
-- The continuity of a supervised agent: what src/supervision/identity.ts proves before it goes on.
use herdr_tools.Base.{
  ◌≡◌, refl, true, false, String, ◌==◌, Option, some, none, arith, eq_iff, ap, inl, inr, ◌⊎◌, ◌&&◌,
  and-eq-true,
}
use herdr_tools.Supervision.Protocol.{AgentSession, PaneRecord}
use herdr_tools.Supervision.Identity.{
  Identity, Verdict, continuous, unproven, replaced, differs, is_continuous, Occupant, same_session,
  session_verdict, pane_continuity, occupant_continuity, moved_identity,
}

same_session-eq : (a b : AgentSession) → same_session a b ≡ true → a ≡ b
unfolding same_session
same_session-eq a b h =
    let (s, r) =
      and-eq-true (a.source == b.source)
        (a.agent == b.agent && (a.kind == b.kind && a.value == b.value)) h in
    let (g, q) = and-eq-true (a.agent == b.agent) (a.kind == b.kind && a.value == b.value) r in
    let (k, v) = and-eq-true (a.kind == b.kind) (a.value == b.value) q in
    let e1 : a.source ≡ b.source = ground (arith, eq_iff a.source b.source) in
    let e2 : a.agent ≡ b.agent = ground (arith, eq_iff a.agent b.agent) in
    let e3 : a.kind ≡ b.kind = ground (arith, eq_iff a.kind b.kind) in
    let e4 : a.value ≡ b.value = ground (arith, eq_iff a.value b.value) in
    λ i. record { source = e1 i; agent = e2 i; kind = e3 i; value = e4 i }

session_verdict-continuous :
    (bound : AgentSession) (s : Option AgentSession)
    → session_verdict bound s ≡ continuous
    → s ≡ some bound
unfolding session_verdict
session_verdict-continuous bound none h = ground arith
session_verdict-continuous bound (some s) h = ap some (same_session-eq s bound (ground arith))

absent_or_bound :
    (bound : String) (o : Option String) → differs bound o ≡ false → (o ≡ none) ⊎ (o ≡ some bound)
absent_or_bound bound none h = inl refl
absent_or_bound bound (some s) h =
    let same : s ≡ bound = ground (arith, eq_iff s bound) in inr (ap some same)

is_continuous-true : (v : Verdict) → is_continuous v ≡ true → v ≡ continuous
is_continuous-true continuous h = refl
is_continuous-true unproven h = ground arith
is_continuous-true replaced h = ground arith

-- A pane record judged continuous has the bound terminal and the bound session.
pub pane_continuity-continuous :
    (i : Identity) (p : PaneRecord)
    → pane_continuity i p ≡ continuous
    → (p.terminal_id ≡ i.terminal_id)
      × ((p.agent_kind ≡ none) ⊎ (p.agent_kind ≡ some i.agent_kind))
      × (p.agent_session ≡ some i.agent_session)
unfolding pane_continuity
pane_continuity-continuous i p h = (
  ground (arith, eq_iff p.terminal_id i.terminal_id),
  absent_or_bound i.agent_kind p.agent_kind (ground arith),
  session_verdict-continuous i.agent_session p.agent_session (ground arith),
)

-- An occupant judged continuous also has the bound name, if it has one.
pub occupant_continuity-continuous :
    (i : Identity) (o : Occupant)
    → occupant_continuity i o ≡ continuous
    → ((o.agent_name ≡ none) ⊎ (o.agent_name ≡ some i.agent_name))
      × (pane_continuity i o.pane ≡ continuous)
unfolding occupant_continuity
occupant_continuity-continuous i o h =
    (absent_or_bound i.agent_name o.agent_name (ground arith), ground arith)

-- A move is followed only where the moved pane and a fresh occupant of the destination both have the
-- bound terminal and session; the identity then changes in its pane alone.
pub moved_identity-followed :
    (i j : Identity) (moved : PaneRecord) (fresh : Occupant)
    → moved_identity i moved fresh ≡ some j
    → (j ≡ record i { pane_id = moved.pane_id })
      × (moved.terminal_id ≡ i.terminal_id)
      × (moved.agent_session ≡ some i.agent_session)
      × (fresh.agent_present ≡ true)
      × (fresh.pane.pane_id ≡ moved.pane_id)
      × (fresh.pane.terminal_id ≡ i.terminal_id)
      × (fresh.pane.agent_session ≡ some i.agent_session)
      × ((fresh.agent_name ≡ none) ⊎ (fresh.agent_name ≡ some i.agent_name))
unfolding moved_identity
moved_identity-followed i j moved fresh h =
    let c = is_continuous-true (pane_continuity i moved) (ground arith) in
    let d = is_continuous-true (occupant_continuity i fresh) (ground arith) in
    let (t, k, s) = pane_continuity-continuous i moved c in
    let (n, e) = occupant_continuity-continuous i fresh d in
    let (t', k', s') = pane_continuity-continuous i fresh.pane e in
    (
      ground arith,
      t,
      s,
      ground arith,
      ground (arith, eq_iff fresh.pane.pane_id moved.pane_id),
      t',
      s',
      n,
    )
