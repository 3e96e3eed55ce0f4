-- ===== src/Supervision/Identity.antt =====
-- src/supervision/identity.ts: the bound identity, its continuity, and the evidence of a snapshot.
use herdr_tools.Base.{
  ℕ, Bool, true, false, not, ◌&&◌, ◌||◌, String, ◌==◌, Option, none, some, ltb, utf16_length,
  if◌then◌else◌,
}
use herdr_tools.Supervision.Json.{Json, null, text, object, Fields, lookup, optional_counter}
use herdr_tools.Supervision.Protocol.{◌>>=◌, AgentStatus, AgentSession, PaneRecord, agent_status_of}

-- `SupervisedIdentity`.
pub record Identity : Type 0 where
  pub pane_id : String
  pub terminal_id : String
  pub agent_name : String
  pub agent_kind : String
  pub agent_session : AgentSession

-- `ContinuityVerdict`.
pub data Verdict : Type 0 where
  continuous unproven replaced : Verdict

-- `AuthoritativeOccupant`.
pub record Occupant : Type 0 where
  pub pane : PaneRecord
  pub agent_present : Bool
  pub agent_name : Option String
  pub state_change_seq : Option ℕ

-- `sameSession`.
unfoldable pub same_session : AgentSession → AgentSession → Bool
same_session a b =
    a.source == b.source && (a.agent == b.agent && (a.kind == b.kind && a.value == b.value))

abbrev pub differs : String → Option String → Bool
differs bound none = false
differs bound (some s) = not (s == bound)

unfoldable pub session_verdict : AgentSession → Option AgentSession → Verdict
unfolding same_session
session_verdict bound none = unproven
session_verdict bound (some s) = if same_session s bound then continuous else replaced

-- `paneContinuity`.
unfoldable pub pane_continuity : Identity → PaneRecord → Verdict
unfolding session_verdict
pane_continuity i p =
    if not (p.terminal_id == i.terminal_id)
    then replaced
    else if differs i.agent_kind p.agent_kind
    then replaced
    else session_verdict i.agent_session p.agent_session

-- `occupantContinuity`.
unfoldable pub occupant_continuity : Identity → Occupant → Verdict
unfolding pane_continuity
occupant_continuity i o =
    if differs i.agent_name o.agent_name then replaced else pane_continuity i o.pane

abbrev pub is_continuous : Verdict → Bool
is_continuous continuous = true
is_continuous _ = false

-- `movedIdentity`.
unfoldable pub moved_identity : Identity → PaneRecord → Occupant → Option Identity
unfolding pane_continuity occupant_continuity
moved_identity i moved fresh =
    if not (is_continuous (pane_continuity i moved))
    then none
    else if not fresh.agent_present || not (fresh.pane.pane_id == moved.pane_id)
    then none
    else if not (is_continuous (occupant_continuity i fresh))
    then none
    else some (record i { pane_id = moved.pane_id })

pub data TargetFailure : Type 0 where
  duplicate_target_pane duplicate_target_agent orphan_target_agent target_identity_contradiction
        target_record_malformed :
      TargetFailure

-- `SnapshotTargetEvidence`.
pub data TargetEvidence : Type 0 where
  unique : Occupant → TargetEvidence
  absent : TargetEvidence
  invalid : TargetFailure → TargetEvidence

-- `optionalIdentityString`: the outer none is a throw.
unfoldable pub optional_identity : Option Json → Option (Option String)
unfolding utf16_length
optional_identity none = some none
optional_identity (some null) = some none
optional_identity (some (text s)) = if ltb 0 (utf16_length s) then some (some s) else none
optional_identity (some _) = none

-- `??` on two fields: the second is read where the first is absent.
unfoldable pub either_name : String → String → Fields → Option (Option String)
unfolding optional_identity lookup
either_name first second fs = do
  name ← optional_identity (lookup first fs)
  elim name [ some s ↦ some (some s) | none ↦ optional_identity (lookup second fs) ]

abbrev complete_session :
    Option String → Option String → Option String → Option String → Option (Option AgentSession)
complete_session (some s) (some a) (some k) (some v) =
    some (some (record { source = s; agent = a; kind = k; value = v }))
complete_session _ _ _ _ = none

-- `optionalSession`: an object must be complete.
unfoldable pub target_session : Option Json → Option (Option AgentSession)
unfolding optional_identity lookup
target_session none = some none
target_session (some null) = some none
target_session (some (object fs)) = do
  source ← optional_identity (lookup "source" fs)
  agent ← optional_identity (lookup "agent" fs)
  kind ← optional_identity (lookup "kind" fs)
  value ← optional_identity (lookup "value" fs)
  complete_session source agent kind value
target_session (some _) = none

-- `optionalLifecycleStatus`.
unfoldable pub optional_status : Option Json → Option (Option AgentStatus)
unfolding agent_status_of
optional_status none = some none
optional_status (some null) = some none
optional_status (some j) = agent_status_of (some j) >>= (λ s. some (some s))

-- The agent record's own fields.
pub record AgentFields : Type 0 where
  pub name : Option String
  pub terminal : Option String
  pub kind : Option String
  pub session : Option AgentSession
  pub revision : Option ℕ
  pub status : Option AgentStatus
  pub state_change_seq : Option ℕ

unfoldable pub agent_fields : Fields → Option AgentFields
unfolding optional_identity either_name target_session optional_counter optional_status lookup
agent_fields fs = do
  name ← either_name "name" "agent_name" fs
  terminal ← optional_identity (lookup "terminal_id" fs)
  kind ← optional_identity (lookup "agent" fs)
  session ← target_session (lookup "agent_session" fs)
  revision ← optional_counter (lookup "revision" fs)
  status ← optional_status (lookup "agent_status" fs)
  seq ← optional_counter (lookup "state_change_seq" fs)
  some (record {
    name = name;
    terminal = terminal;
    kind = kind;
    session = session;
    revision = revision;
    status = status;
    state_change_seq = seq;
  })
