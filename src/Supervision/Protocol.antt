-- ===== src/Supervision/Protocol.antt =====
-- src/supervision/protocol.ts: the validation of pane records and of socket events.
use herdr_tools.Base.{
  ℕ, ◌+◌, Bool, false, String, ◌==◌, Option, none, some, leb, utf16_length, if◌then◌else◌,
}
use herdr_tools.Supervision.Json.{
  Json, null, natural, negative, text, object, Fields, lookup, max_safe, required_string,
  optional_string, required_counter, optional_counter,
}

infixl 20 ◌>>=◌
abbrev pub ◌>>=◌ {ℓ κ} : {A : Type ℓ} {B : Type κ} → Option A → (A → Option B) → Option B
none >>= f = none
some a >>= f = f a

-- `SUPERVISION_AGENT_STATUSES`.
pub data AgentStatus : Type 0 where
  idle working blocked done unknown_status : AgentStatus

pub record AgentSession : Type 0 where
  pub source : String
  pub agent : String
  pub kind : String
  pub value : String

-- `SupervisionPaneRecord`.
pub record PaneRecord : Type 0 where
  pub pane_id : String
  pub terminal_id : String
  pub tab_id : String
  pub workspace_id : String
  pub agent_status : AgentStatus
  pub revision : ℕ
  pub state_change_seq : Option ℕ
  pub agent_kind : Option String
  pub agent_session : Option AgentSession
  pub label : Option String

-- `parseAgentSession` of an object.
unfoldable pub parse_session_fields : Fields → Option AgentSession
unfolding lookup required_string
parse_session_fields fs = do
  source ← required_string (lookup "source" fs)
  agent ← required_string (lookup "agent" fs)
  kind ← required_string (lookup "kind" fs)
  value ← required_string (lookup "value" fs)
  some (record { source = source; agent = agent; kind = kind; value = value })

-- `optionalAgentSession`.
unfoldable pub optional_session : Option Json → Option (Option AgentSession)
unfolding parse_session_fields
optional_session none = some none
optional_session (some null) = some none
optional_session (some (object fs)) = parse_session_fields fs >>= (λ s. some (some s))
optional_session (some _) = none

unfoldable pub status_of : String → Option AgentStatus
status_of s =
    if s == "idle"
    then some idle
    else if s == "working"
    then some working
    else if s == "blocked"
    then some blocked
    else if s == "done"
    then some done
    else if s == "unknown"
    then some unknown_status
    else none

-- `agentStatus`.
unfoldable pub agent_status_of : Option Json → Option AgentStatus
unfolding status_of
agent_status_of (some (text s)) = status_of s
agent_status_of _ = none

-- `parsePaneRecord` of an object.
unfoldable pub parse_pane_fields : Fields → Option PaneRecord
unfolding lookup required_string optional_string required_counter optional_counter agent_status_of
    optional_session
parse_pane_fields fs = do
  pane_id ← required_string (lookup "pane_id" fs)
  terminal_id ← required_string (lookup "terminal_id" fs)
  tab_id ← required_string (lookup "tab_id" fs)
  workspace_id ← required_string (lookup "workspace_id" fs)
  agent_status ← agent_status_of (lookup "agent_status" fs)
  revision ← required_counter (lookup "revision" fs)
  state_change_seq ← optional_counter (lookup "state_change_seq" fs)
  agent_kind ← optional_string (lookup "agent" fs)
  agent_session ← optional_session (lookup "agent_session" fs)
  label ← optional_string (lookup "label" fs)
  some (record {
    pane_id = pane_id;
    terminal_id = terminal_id;
    tab_id = tab_id;
    workspace_id = workspace_id;
    agent_status = agent_status;
    revision = revision;
    state_change_seq = state_change_seq;
    agent_kind = agent_kind;
    agent_session = agent_session;
    label = label;
  })

-- `parsePaneRecord`.
unfoldable pub parse_pane_record : Option Json → Option PaneRecord
unfolding parse_pane_fields
parse_pane_record (some (object fs)) = parse_pane_fields fs
parse_pane_record _ = none

-- `SUPERVISION_EVENT_KINDS`.
pub data EventKind : Type 0 where
  pane_updated pane_closed pane_exited pane_moved pane_agent_detected : EventKind

unfoldable pub kind_name : EventKind → String
kind_name pane_updated = "pane_updated"
kind_name pane_closed = "pane_closed"
kind_name pane_exited = "pane_exited"
kind_name pane_moved = "pane_moved"
kind_name pane_agent_detected = "pane_agent_detected"

-- An exit code: a natural number, or a negative one.
pub data ExitCode : Type 0 where
  code_up code_down : ℕ → ExitCode

-- `PaneExitFact`.
pub data PaneExitFact : Type 0 where
  exit_observed : Option ExitCode → Option String → PaneExitFact
  exit_status_not_reported : PaneExitFact

unfoldable pub optional_exit_code : Option Json → Option (Option ExitCode)
optional_exit_code none = some none
optional_exit_code (some null) = some none
optional_exit_code (some (natural n)) = if leb n max_safe then some (some (code_up n)) else none
optional_exit_code (some (negative n)) =
    if leb (n + 1) max_safe then some (some (code_down n)) else none
optional_exit_code (some _) = none

unfoldable pub optional_exit_signal : Option Json → Option (Option String)
unfolding required_string utf16_length
optional_exit_signal none = some none
optional_exit_signal (some null) = some none
optional_exit_signal (some j) = do
  signal ← required_string (some j)
  if leb (utf16_length signal) 64 then some (some signal) else none

abbrev exit_fact : Option ExitCode → Option String → PaneExitFact
exit_fact none none = exit_status_not_reported
exit_fact code signal = exit_observed code signal

-- `paneExitFact`.
unfoldable pub pane_exit_fact : Fields → Option PaneExitFact
unfolding optional_exit_code optional_exit_signal lookup
pane_exit_fact fs = do
  code ← optional_exit_code (lookup "exit_code" fs)
  signal ← optional_exit_signal (lookup "signal" fs)
  some (exit_fact code signal)

-- What `validateEvent` adds to an accepted event.
pub record EventFacts : Type 0 where
  pub pane_id : String
  pub pane : Option PaneRecord
  pub previous_pane_id : Option String
  pub exit : Option PaneExitFact

abbrev thin : String → Option PaneExitFact → EventFacts
thin id exit = record { pane_id = id; pane = none; previous_pane_id = none; exit = exit }

abbrev full : PaneRecord → Option String → EventFacts
full p previous = record {
  pane_id = p.pane_id;
  pane = some p;
  previous_pane_id = previous;
  exit = none;
}

abbrev type_matches : EventKind → Option Json → Bool
type_matches kind (some (text s)) = s == kind_name kind
type_matches kind _ = false

unfoldable pub event_facts : EventKind → Fields → Option EventFacts
unfolding required_string lookup pane_exit_fact parse_pane_record
event_facts pane_exited fs = do
  id ← required_string (lookup "pane_id" fs)
  exit ← pane_exit_fact fs
  some (thin id (some exit))
event_facts pane_updated fs = do p ← parse_pane_record (lookup "pane" fs); some (full p none)
event_facts pane_moved fs = do
  p ← parse_pane_record (lookup "pane" fs)
  previous ← required_string (lookup "previous_pane_id" fs)
  some (full p (some previous))
event_facts pane_closed fs = do id ← required_string (lookup "pane_id" fs); some (thin id none)
event_facts pane_agent_detected fs = do
  id ← required_string (lookup "pane_id" fs)
  some (thin id none)

-- `validateEvent`: the kind must be that of the data, then its own fields are checked.
unfoldable pub validate_event : EventKind → Fields → Option EventFacts
unfolding kind_name lookup event_facts
validate_event kind fs = if type_matches kind (lookup "type" fs) then event_facts kind fs else none
