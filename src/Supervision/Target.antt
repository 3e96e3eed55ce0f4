-- ===== src/Supervision/Target.antt =====
-- src/supervision/identity.ts: the target of a snapshot, from its pane and agent records.
use herdr_tools.Base.{
  Bool, true, false, not, ◌||◌, String, ◌==◌, List, [], ◌∷◌, Option, none, some, keep, eqb,
  if◌then◌else◌,
}
use herdr_tools.Supervision.Json.{Json, text, Fields, lookup}
use herdr_tools.Supervision.Protocol.{
  AgentStatus, idle, working, blocked, done, unknown_status, PaneRecord, parse_pane_fields,
}
use herdr_tools.Supervision.Identity.{
  Occupant, TargetEvidence, unique, absent, invalid, duplicate_target_pane, duplicate_target_agent,
  orphan_target_agent, target_identity_contradiction, target_record_malformed, same_session,
  AgentFields, agent_fields, either_name,
}

abbrev same_status : AgentStatus → AgentStatus → Bool
same_status idle idle = true
same_status working working = true
same_status blocked blocked = true
same_status done done = true
same_status unknown_status unknown_status = true
same_status _ _ = false

-- `contradictory`: two values that are there and differ.
unfoldable pub contradictory {ℓ} : {A : Type ℓ} → (A → A → Bool) → Option A → Option A → Bool
contradictory same none b = false
contradictory same (some a) none = false
contradictory same (some a) (some b) = not (same a b)

abbrev same_text : String → String → Bool
same_text a b = a == b

-- The fields on which a pane record and its agent record disagree.
unfoldable pub records_disagree : Option String → PaneRecord → AgentFields → Bool
unfolding contradictory same_session
records_disagree pane_name p a =
    contradictory same_text pane_name a.name
    || (contradictory same_text (some p.terminal_id) a.terminal
        || (contradictory same_text p.agent_kind a.kind
            || (contradictory same_session p.agent_session a.session
                || (contradictory eqb a.revision (some p.revision)
                    || (contradictory same_status a.status (some p.agent_status)
                        || contradictory eqb a.state_change_seq p.state_change_seq)))))

abbrev pub first_of {ℓ} : {A : Type ℓ} → Option A → Option A → Option A
first_of none b = b
first_of (some a) b = some a

abbrev pub joined_occupant : Option String → PaneRecord → AgentFields → Occupant
joined_occupant pane_name p a = record {
  pane = record p {
    agent_kind = first_of p.agent_kind a.kind;
    agent_session = first_of p.agent_session a.session;
    state_change_seq = first_of a.state_change_seq p.state_change_seq;
  };
  agent_present = true;
  agent_name = first_of a.name pane_name;
  state_change_seq = first_of a.state_change_seq p.state_change_seq;
}

abbrev pub lone_occupant : Option String → PaneRecord → Occupant
lone_occupant pane_name p = record {
  pane = p;
  agent_present = false;
  agent_name = pane_name;
  state_change_seq = p.state_change_seq;
}

unfoldable pub join_agent : PaneRecord → Option String → Option AgentFields → TargetEvidence
unfolding records_disagree
join_agent p name none = invalid target_record_malformed
join_agent p name (some a) =
    if records_disagree name p a
    then invalid target_identity_contradiction
    else unique (joined_occupant name p a)

unfoldable pub join_pane :
    Option PaneRecord → Option (Option String) → Option Fields → TargetEvidence
unfolding join_agent agent_fields
join_pane none name agent = invalid target_record_malformed
join_pane (some p) none agent = invalid target_record_malformed
join_pane (some p) (some name) none = unique (lone_occupant name p)
join_pane (some p) (some name) (some agent) = join_agent p name (agent_fields agent)

-- `joinTargetRecords`; what throws inside it is `target_record_malformed`.
unfoldable pub join_target_records : Fields → Option Fields → TargetEvidence
unfolding join_pane parse_pane_fields either_name
join_target_records pane agent =
    join_pane (parse_pane_fields pane) (either_name "agent_name" "name" pane) agent

abbrev pub names_pane : String → Option Json → Bool
names_pane id (some (text s)) = s == id
names_pane id _ = false

-- The records of one pane.
abbrev pub of_pane : String → List Fields → List Fields
of_pane id rs = keep (λ (r : Fields). names_pane id (lookup "pane_id" r)) rs

unfoldable pub classify_records : List Fields → List Fields → TargetEvidence
unfolding join_target_records
classify_records [] [] = absent
classify_records [] (a ∷ []) = invalid orphan_target_agent
classify_records [] (a ∷ b ∷ rest) = invalid duplicate_target_agent
classify_records (p ∷ q ∷ ps) agents = invalid duplicate_target_pane
classify_records (p ∷ []) [] = join_target_records p none
classify_records (p ∷ []) (a ∷ []) = join_target_records p (some a)
classify_records (p ∷ []) (a ∷ b ∷ rest) = invalid duplicate_target_agent

-- `classifySnapshotTarget`.
unfoldable pub classify_snapshot_target : List Fields → List Fields → String → TargetEvidence
unfolding classify_records lookup
classify_snapshot_target panes agents id = classify_records (of_pane id panes) (of_pane id agents)
