-- ===== src/Supervision/Tests.antt =====
-- Runs of the identity rules of supervision, and their theorems at concrete inputs.
use herdr_tools.Base.{◌≡◌, refl, ◌⊎◌, Bool, true, [], ◌∷◌, some, none, is_identifier, utf16_length}
use herdr_tools.Supervision.Json.{
  natural, text, object, Fields, field, no_fields, lookup, required_string, optional_string,
  required_counter, optional_counter,
}
use herdr_tools.Supervision.Protocol.{
  AgentSession, PaneRecord, working, parse_pane_fields, parse_session_fields, optional_session,
  agent_status_of, status_of, validate_event, event_facts, pane_exited, kind_name, pane_exit_fact,
  optional_exit_code, optional_exit_signal, exit_observed, code_up,
}
use herdr_tools.Supervision.Identity.{
  Identity, Occupant, moved_identity, pane_continuity, occupant_continuity, session_verdict,
  same_session, optional_identity, either_name, target_session, optional_status, agent_fields,
}
use herdr_tools.Supervision.Target.{
  classify_snapshot_target, classify_records, join_target_records, join_pane, join_agent,
  records_disagree, contradictory, of_pane,
}
use herdr_tools.Supervision.Continuity.{moved_identity-followed}
use herdr_tools.Supervision.Coherence.{IsOnly, classify_snapshot_target-IsOnly}

abbrev session : AgentSession
session = record { source = "pi"; agent = "pi"; kind = "id"; value = "s1" }

abbrev bound : Identity
bound = record {
  pane_id = "p1";
  terminal_id = "t1";
  agent_name = "task-1";
  agent_kind = "pi";
  agent_session = session;
}

abbrev moved : PaneRecord
moved = record {
  pane_id = "p2";
  terminal_id = "t1";
  tab_id = "b1";
  workspace_id = "w1";
  agent_status = working;
  revision = 3;
  state_change_seq = none;
  agent_kind = some "pi";
  agent_session = some session;
  label = none;
}

abbrev found : Occupant
found = record {
  pane = moved;
  agent_present = true;
  agent_name = some "task-1";
  state_change_seq = none;
}

-- Opens the code of the identity rules.
identity_code : Bool
unfolding moved_identity pane_continuity occupant_continuity session_verdict same_session lookup
    required_string optional_string required_counter optional_counter parse_pane_fields
    parse_session_fields optional_session agent_status_of status_of is_identifier utf16_length
    optional_identity either_name target_session optional_status agent_fields
    classify_snapshot_target classify_records join_target_records join_pane join_agent
    records_disagree contradictory validate_event event_facts kind_name pane_exit_fact
    optional_exit_code optional_exit_signal
identity_code = true

moved_identity-followed_example :
    (record bound { pane_id = "p2" } ≡ record bound { pane_id = moved.pane_id })
    × (moved.terminal_id ≡ bound.terminal_id)
    × (moved.agent_session ≡ some bound.agent_session)
    × (found.agent_present ≡ true)
    × (found.pane.pane_id ≡ moved.pane_id)
    × (found.pane.terminal_id ≡ bound.terminal_id)
    × (found.pane.agent_session ≡ some bound.agent_session)
    × ((found.agent_name ≡ none) ⊎ (found.agent_name ≡ some bound.agent_name))
moved_identity-followed_example =
    moved_identity-followed bound (record bound { pane_id = "p2" }) moved found
      (unfold identity_code in refl)

abbrev pane_fields : Fields
pane_fields = field "pane_id" (text "p2") (
    field "terminal_id" (text "t1") (
      field "tab_id" (text "b1") (
        field "workspace_id" (text "w1")
          (field "agent_status" (text "working") (field "revision" (natural 3) no_fields)))))

abbrev session_fields : Fields
session_fields =
    field "source" (text "pi")
      (field "agent" (text "pi") (field "kind" (text "id") (field "value" (text "s1") no_fields)))

abbrev agent_record : Fields
agent_record = field "pane_id" (text "p2") (
    field "name" (text "task-1")
      (field "agent" (text "pi") (field "agent_session" (object session_fields) no_fields)))

classify_snapshot_target-IsOnly_example :
    IsOnly (of_pane "p2" (pane_fields ∷ [])) (of_pane "p2" (agent_record ∷ [])) found
classify_snapshot_target-IsOnly_example =
    classify_snapshot_target-IsOnly (pane_fields ∷ []) (agent_record ∷ []) "p2" found
      (unfold identity_code in refl)

exit_event_read :
    validate_event pane_exited (
      field "type"
        (text "pane_exited")
        (field "pane_id" (text "p1") (field "exit_code" (natural 1) no_fields)))
    ≡ some (record {
      pane_id = "p1";
      pane = none;
      previous_pane_id = none;
      exit = some (exit_observed (some (code_up 1)) none);
    })
unfolding identity_code
exit_event_read = refl
