-- ===== src/Handoff.antt =====
-- src/handoff-gate.ts: the gate between a managed run and its artifact. A host has a view of a run; the
-- sidecar is the durable state that all hosts share.
pub mod Fences
pub mod Cycles
pub mod Gate
pub mod Shutdown
mod Tests
use herdr_tools.Base.{
  ℕ, zero, suc, ◌+◌, Bool, true, false, not, ◌&&◌, ◌||◌, String, ◌==◌, List, [], ◌∷◌, Option, none,
  some, leb, eqb, is_some, get_or, if◌then◌else◌, take, codes,
}
use herdr_tools.Base.Dict.{Dict, get, put, remove}
use herdr_tools.Base.Joined.{nul_joined}

-- `HandoffLifecycleState`.
pub data Lifecycle : Type 0 where
  awaiting_handoff handed_off recovery_pending cancelled failed : Lifecycle

-- `HandoffStatus`.
pub data ArtifactStatus : Type 0 where
  done_status blocked_status cancelled_status failed_status : ArtifactStatus

pub record NativeSession : Type 0 where
  pub source : String
  pub agent : String
  pub kind : String
  pub value : String

-- `HandoffBoundIdentity`.
pub record BoundIdentity : Type 0 where
  pub pane_id : String
  pub terminal_id : String
  pub agent_name : String
  pub agent_kind : String
  pub agent_session : NativeSession
  pub agent_id : Option String

-- `HandoffValidationState`.
pub data ValidationState : Type 0 where
  accepted missing invalid untrusted oversized stale unavailable : ValidationState

pub record AcceptedArtifact : Type 0 where
  pub status : Option ArtifactStatus
  pub sha256 : String
  pub bytes : ℕ
  pub version : ℕ

-- `HandoffValidation`.
pub record Validation : Type 0 where
  pub state : ValidationState
  pub reason : Option String
  pub artifact : Option AcceptedArtifact

pub record Fence : Type 0 where
  pub version : ℕ
  pub token : String

pub record Watermark : Type 0 where
  pub state_change_seq : ℕ
  pub revision : ℕ

-- `HandoffState`, in what the gate reads and writes.
pub record Sidecar : Type 0 where
  pub pane_id : Option String
  pub terminal_id : Option String
  pub agent_id : Option String
  pub native_session : Option NativeSession
  pub lifecycle : Lifecycle
  pub watermark : Option Watermark
  pub detail : Option String
  pub sha256 : Option String
  pub bytes : Option ℕ
  pub version : ℕ
  pub status : Option ArtifactStatus
  pub mtime_ms : Option ℕ
  pub trace_history : Option String
  pub attempts : ℕ
  pub fence : Option Fence

-- `HandoffRun`.
pub record Run : Type 0 where
  pub run_id : String
  pub artifact_path : String
  pub identity : BoundIdentity
  pub cycle_open : Bool
  pub accepted_artifact : Option AcceptedArtifact
  pub lifecycle : Lifecycle
  pub last_validation : Option (ValidationState × Option String)
  pub attempts : ℕ
  pub fence_version : Option ℕ

abbrev pub max_repair_attempts : ℕ
max_repair_attempts = 8

-- `identityKey`.
unfoldable pub identity_key : BoundIdentity → String
unfolding nul_joined
identity_key i =
    let s = i.agent_session in
    nul_joined i.terminal_id (
      nul_joined i.agent_name (
        nul_joined i.agent_kind
          (nul_joined s.source (nul_joined s.agent (nul_joined s.kind s.value)))))

-- The codes of `HandoffError` that the gate tells apart.
pub data HandoffCode : Type 0 where
  artifact_missing artifact_invalid artifact_oversized artifact_untrusted other_code : HandoffCode

-- `validationFailure`.
unfoldable pub validation_failure : HandoffCode → ValidationState
validation_failure artifact_missing = missing
validation_failure artifact_invalid = invalid
validation_failure artifact_oversized = oversized
validation_failure artifact_untrusted = untrusted
validation_failure other_code = unavailable

-- `remembered`.
unfoldable pub remembered : Validation → Run → Run
remembered v r = record r { last_validation = some (v.state, v.reason) }

abbrev mirrored_artifact : Sidecar → Option String → Option AcceptedArtifact
mirrored_artifact s none = none
mirrored_artifact s (some sha) =
    some record { status = s.status; sha256 = sha; bytes = get_or s.bytes 0; version = s.version }

abbrev fence_of : Option Fence → Option ℕ
fence_of none = none
fence_of (some f) = some f.version

-- `mirror`.
unfoldable pub mirror : Sidecar → Run → Run
mirror s r = record r {
  accepted_artifact = mirrored_artifact s s.sha256;
  lifecycle = s.lifecycle;
  attempts = s.attempts;
  fence_version = fence_of s.fence;
}

pub data Until : Type 0 where
  completed terminal : Until

pub data RawStatus : Type 0 where
  idle done working blocked unknown : RawStatus

abbrev is_finished : RawStatus → Bool
is_finished idle = true
is_finished done = true
is_finished _ = false

abbrev pub is_accepted : ValidationState → Bool
is_accepted accepted = true
is_accepted _ = false

abbrev is_blocked : Option ArtifactStatus → Bool
is_blocked (some blocked_status) = true
is_blocked _ = false

-- `handoffGateMatches`.
unfoldable pub handoff_gate_matches : Validation → Until → RawStatus → Bool
handoff_gate_matches v completed raw = is_finished raw && is_accepted v.state
handoff_gate_matches v terminal raw = elim raw [
  | working ↦ false
  | unknown ↦ false
  | blocked ↦ is_accepted v.state && elim v.artifact [ none ↦ false | some a ↦ is_blocked a.status ]
  | idle ↦
      is_accepted v.state && elim v.artifact [ none ↦ false | some a ↦ not (is_blocked a.status) ]
  | done ↦
      is_accepted v.state && elim v.artifact [ none ↦ false | some a ↦ not (is_blocked a.status) ]
]

-- What `updateHandoffState` answers: the state is written; a `HandoffError` with nothing written, or
-- after the state was written, where its directory cannot be synced; another throw with nothing written.
pub data Update : Type 0 where
  committed refused unsynced thrown : Update

-- `HandoffArtifact`.
pub record Artifact : Type 0 where
  pub sha256 : String
  pub bytes : ℕ
  pub status : ArtifactStatus
  pub mtime_ms : ℕ

-- What `readHandoffArtifact` answers: the artifact, a `HandoffError` with its reason, or another throw.
pub data ArtifactRead : Type 0 where
  found : Artifact → ArtifactRead
  handoff_error : HandoffCode → Option String → ArtifactRead
  read_thrown : ArtifactRead

-- A result, the view of the host and the sidecar after it; none is a throw.
abbrev pub After : Type 0 → Type 0
After A = Option A × Run × Sidecar

-- A text and its first units: `slice`, by value and length.
pub record Slices : Type 0 where
  pub slice : ℕ → String → String

abbrev sliced : Slices → ℕ → Option String → Option String
sliced t n none = none
sliced t n (some s) = some (t.slice n s)

abbrev is_current : Artifact → Sidecar → Bool
is_current a s = elim s.sha256 [ none ↦ false | some sha ↦ sha == a.sha256 ]

-- The mutation of `validate` where the content is new.
unfoldable pub accept : Artifact → Option String → Sidecar → Sidecar
accept a history s = record s {
  sha256 = some a.sha256;
  bytes = some a.bytes;
  version = suc s.version;
  status = some a.status;
  mtime_ms = some a.mtime_ms;
  trace_history = history;
}

abbrev pub verdict : ValidationState → Option String → Validation
verdict state reason = record { state = state; reason = reason; artifact = none }

abbrev pub judged : Validation → Run → Sidecar → After Validation
unfolding remembered
judged v r s = (some v, remembered v r, s)

-- The end of `validate`, once the sidecar is written.
unfoldable pub validated : Artifact → Bool → Run → Sidecar → After Validation
unfolding remembered mirror
validated a is_stale r s =
    let seen = mirror s r in
    if is_stale
    then judged (verdict stale none) seen s
    else judged
        record {
          state = accepted;
          reason = none;
          artifact = some record {
            status = some a.status;
            sha256 = a.sha256;
            bytes = a.bytes;
            version = s.version;
          };
        }
        (record seen { cycle_open = false }) s

-- `validate`, with the history that is captured of new content.
unfoldable pub validate :
    Slices → ArtifactRead → Option String → Update → Run → Sidecar → After Validation
unfolding validation_failure remembered accept validated
validate t read_thrown history u r s = (none, r, s)
validate t (handoff_error code reason) history u r s =
    judged (verdict (validation_failure code) (sliced t 64 reason)) r s
validate t (found a) history u r s =
    let next = if is_current a s then s else accept a history s in
    elim u [
      | committed ↦ validated a (is_current a s && r.cycle_open) r next
      | refused ↦ judged (verdict unavailable none) r s
      | unsynced ↦ judged (verdict unavailable none) r next
      | thrown ↦ (none, r, s)
    ]

abbrev is_fenced : Sidecar → Bool
is_fenced s = elim s.fence [ none ↦ false | some f ↦ eqb f.version s.version ]

-- `updateHandoffState` and the mirror of what it gives, for the state that a mutation makes.
unfoldable pub updated : {A : Type 0} → Update → A → Run → Sidecar → Sidecar → After A
unfolding mirror
updated committed x r next s = (some x, mirror next r, next)
updated unsynced x r next s = (none, r, next)
updated refused x r next s = (none, r, s)
updated thrown x r next s = (none, r, s)

-- The mutation of `beginRepair`.
unfoldable pub fenced : String → Sidecar → Option Fence × Sidecar
fenced token s =
    if leb max_repair_attempts s.attempts
    then (none, s)
    else if is_fenced s
    then (none, s)
    else let fence : Fence = record { version = s.version; token = token } in
      (some fence, record s { attempts = suc s.attempts; fence = some fence })

-- `beginRepair`, with the token that is minted: the inner none is no fence.
unfoldable pub begin_repair : String → Update → Run → Sidecar → After (Option Fence)
unfolding fenced updated
begin_repair token u r s = let (o, next) = fenced token s in updated u o r next s

-- `recordOutcome`.
unfoldable pub record_outcome :
    Slices → Lifecycle → Option String → Update → Run → Sidecar → After Unit
unfolding updated
record_outcome t outcome detail u r s =
    updated u tt r (record s { lifecycle = outcome; detail = sliced t 256 detail }) s

-- `markCycle`.
unfoldable pub mark_cycle : String → Update → Run → Sidecar → After Unit
unfolding updated
mark_cycle mark u r s = updated u tt r (record s { detail = some mark }) s

abbrev watermark_or : Option Watermark → Option Watermark → Option Watermark
watermark_or none old = old
watermark_or (some w) old = some w

-- The mutation of `bind`.
unfoldable pub bound_child : BoundIdentity → Option Watermark → Sidecar → Sidecar
bound_child i w s = record s {
  pane_id = some i.pane_id;
  terminal_id = some i.terminal_id;
  agent_id = i.agent_id;
  native_session = some i.agent_session;
  watermark = watermark_or w s.watermark;
}

abbrev new_run : String → String → BoundIdentity → Sidecar → Run
new_run run_id path i s = record {
  run_id = run_id;
  artifact_path = path;
  identity = i;
  cycle_open = not (is_some s.sha256);
  accepted_artifact = none;
  lifecycle = awaiting_handoff;
  last_validation = none;
  attempts = 0;
  fence_version = none;
}

-- `bind`: the new view, none where it throws, and the sidecar.
unfoldable pub bind :
    String → String → BoundIdentity → Option Watermark → Update → Sidecar → Option Run × Sidecar
unfolding mirror bound_child
bind run_id path i w u s =
    let next = bound_child i w s in
    elim u [
      | committed ↦ (some (mirror next (new_run run_id path i next)), next)
      | unsynced ↦ (none, next)
      | refused ↦ (none, s)
      | thrown ↦ (none, s)
    ]

-- `beginCycle`.
unfoldable pub begin_cycle : Run → Run
begin_cycle r = record r { cycle_open = true }

-- `notePane`.
unfoldable pub note_pane : String → Run → Run
note_pane pane r = record r { identity = record r.identity { pane_id = pane } }
