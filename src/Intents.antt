-- ===== src/Intents.antt =====
-- The durable launch-intent store of src/daemon/intents.ts: the operations. Its records are in
-- Intents/Record, its files in Intents/Files; the other children prove.
pub mod Record
pub mod Files
pub mod Lifecycle
pub mod Changes
pub mod Recovery
pub mod History
pub mod Binding
pub mod Outcomes
pub mod Children
pub mod Merged
mod Tests
use herdr_tools.Base.{
  Bool, true, false, not, ◌&&◌, String, ◌==◌, List, [], ◌∷◌, ◌++◌, Option, none, some, all, any,
  is_some, get_or, is_identifier, length, eqb, if◌then◌else◌,
}
use herdr_tools.Base.Dict.{get}
use Record.{
  IntentState, recorded, effecting, completed, failed, unresolved, Certainty, absent, unknown,
  interrupted, effect_uncertain, Child, IntentRecord, Platform, LaunchTask, unavailable,
  request_invalid, state_conflict, key_conflict, is_idempotency_key, is_failure_code,
  is_failure_phase, is_session_key, children_valid, merge_children, is_settled, disposed,
  optionally, or_keep,
}
use Files.{
  Store, Io, Result, ok, err, map_ok, read_intent, write_intent, ensure_dir, list_dir,
  list_managers,
}

pub record BeginInput : Type 0 where
  pub manager_session_key : String
  pub idempotency_key : String
  pub task : LaunchTask
  pub project_root : String

-- `launch intent resumed`, `replay intent`, `unresolved intent`.
pub data Verdict : Type 0 where
  launch : IntentRecord → Bool → Verdict
  replay : IntentRecord → Verdict
  reconcile_first : IntentRecord → Verdict

pub record FailInput : Type 0 where
  pub certainty : Certainty
  pub failure_code : Option String
  pub failure_phase : Option String
  pub children : List Child

abbrev pub fresh_record : Platform → Io → BeginInput → IntentRecord
fresh_record p io input = record {
  manager_session_key = input.manager_session_key;
  idempotency_key = input.idempotency_key;
  task_digest = p.task_digest input.task;
  launch_id = io.minted;
  project_root = input.project_root;
  state = recorded;
  recorded_at = io.now;
  updated_at = io.later;
  children = [];
  effect_certainty = none;
  failure_code = none;
  failure_phase = none;
  resolution = none;
  reconciled = false;
}

-- The verdict on a binding that is there and matches the request.
unfoldable pub verdict_on : IntentState → IntentRecord → Verdict
verdict_on recorded existing = launch existing true
verdict_on unresolved existing = reconcile_first existing
verdict_on _ existing = replay existing

-- Writes a record and answers with it.
unfoldable pub commit : Io → String → IntentRecord → Store → Result IntentRecord × Store
commit io m r s = let (done, t) = write_intent io m r s in (map_ok (λ _. r) done, t)

-- The section that `begin` runs under the manager's flock.
unfoldable pub begin_section :
    Platform → Io → BeginInput → Store → Result (Option IntentRecord) → Result Verdict × Store
unfolding verdict_on commit
begin_section p io input s (err e) = (err e, s)
begin_section p io input s (ok none) =
    let (done, t) = commit io input.manager_session_key (fresh_record p io input) s in
    (map_ok (λ r. launch r false) done, t)
begin_section p io input s (ok (some existing)) =
    if not (existing.task_digest == p.task_digest input.task)
    then (err key_conflict, s)
    else if not (existing.project_root == input.project_root)
    then (err key_conflict, s)
    else (ok (verdict_on existing.state existing), s)

abbrev pub valid_input : Platform → BeginInput → Bool
valid_input p input =
    is_session_key input.manager_session_key
    && (is_idempotency_key input.idempotency_key
        && (is_identifier input.project_root && p.valid_task input.task))

unfoldable pub begin : Platform → Io → BeginInput → Store → Result Verdict × Store
unfolding begin_section
begin p io input s =
    if not (valid_input p input)
    then (err request_invalid, s)
    else if not io.trusted
    then (err unavailable, s)
    else let t = ensure_dir input.manager_session_key s in
      if io.locked
      then begin_section p io input t
          (read_intent p input.manager_session_key input.idempotency_key t)
      else (err unavailable, t)

abbrev pub same_state : IntentState → IntentState → Bool
same_state recorded recorded = true
same_state effecting effecting = true
same_state completed completed = true
same_state failed failed = true
same_state unresolved unresolved = true
same_state _ _ = false

-- The section of a transition: re-read, refuse a moved state, write the change.
unfoldable pub transition_section :
    Io
    → IntentRecord
    → List IntentState
    → (IntentRecord → IntentRecord)
    → Store
    → Result (Option IntentRecord)
    → Result IntentRecord × Store
unfolding commit
transition_section io intent expect mutate s (err e) = (err e, s)
transition_section io intent expect mutate s (ok none) = (err state_conflict, s)
transition_section io intent expect mutate s (ok (some current)) =
    if current.launch_id == intent.launch_id && any (same_state current.state) expect
    then commit io intent.manager_session_key (mutate current) s
    else (err state_conflict, s)

unfoldable pub transition :
    Platform
    → Io
    → IntentRecord
    → List IntentState
    → (IntentRecord → IntentRecord)
    → Store
    → Result IntentRecord × Store
unfolding transition_section
transition p io intent expect mutate s =
    if not (is_session_key intent.manager_session_key)
    then (err request_invalid, s)
    else if not io.trusted
    then (err unavailable, s)
    else if not (is_some (get intent.manager_session_key s))
    then (err state_conflict, s)
    else if io.locked
    then transition_section io intent expect mutate s
        (read_intent p intent.manager_session_key intent.idempotency_key s)
    else (err unavailable, s)

abbrev pub to_effecting : Io → IntentRecord → IntentRecord
to_effecting io current = record current { state = effecting; updated_at = io.now }

unfoldable pub mark_effecting : Platform → Io → IntentRecord → Store → Result IntentRecord × Store
mark_effecting p io intent s = transition p io intent (recorded ∷ []) (to_effecting io) s

abbrev pub with_children : Io → List Child → IntentRecord → IntentRecord
with_children io added current = record current {
  children = merge_children current.children added;
  updated_at = io.now;
}

unfoldable pub record_children :
    Platform → Io → IntentRecord → List Child → Store → Result IntentRecord × Store
record_children p io intent added s =
    if children_valid p added
    then transition p io intent (effecting ∷ []) (with_children io added) s
    else (err request_invalid, s)

abbrev pub to_completed : Io → List Child → IntentRecord → IntentRecord
to_completed io added current = record current {
  state = completed;
  children = merge_children current.children added;
  updated_at = io.now;
}

unfoldable pub complete :
    Platform → Io → IntentRecord → List Child → Store → Result IntentRecord × Store
complete p io intent added s =
    if children_valid p added
    then transition p io intent (effecting ∷ []) (to_completed io added) s
    else (err request_invalid, s)

abbrev is_absent : Certainty → Bool
is_absent absent = true
is_absent _ = false

-- `failed` only on absent certainty and no recorded child, otherwise `unresolved`.
unfoldable pub settle_failure : Io → FailInput → IntentRecord → IntentRecord
settle_failure io outcome current =
    let next : IntentRecord = record current {
      children = merge_children current.children outcome.children;
      effect_certainty = some outcome.certainty;
      failure_code = or_keep outcome.failure_code current.failure_code;
      failure_phase = or_keep outcome.failure_phase current.failure_phase;
      updated_at = io.now;
    } in
    if is_absent outcome.certainty
      && eqb (length (merge_children current.children outcome.children)) 0
    then record next { state = failed }
    else record next { state = unresolved; resolution = some effect_uncertain }

abbrev pub valid_failure : Platform → FailInput → Bool
valid_failure p outcome =
    optionally is_failure_code outcome.failure_code
    && (optionally is_failure_phase outcome.failure_phase && children_valid p outcome.children)

unfoldable pub fail : Platform → Io → IntentRecord → FailInput → Store → Result IntentRecord × Store
fail p io intent outcome s =
    if valid_failure p outcome
    then transition p io intent (recorded ∷ effecting ∷ []) (settle_failure io outcome) s
    else (err request_invalid, s)

-- `completed(reconciled)` when every child is accounted for; otherwise the dispositions are kept.
unfoldable pub settle_reconciled : Io → List Child → IntentRecord → IntentRecord
settle_reconciled io dispositions current =
    let children = merge_children current.children dispositions in
    if is_settled children
    then record current {
      children = children;
      state = completed;
      reconciled = true;
      updated_at = io.now;
    }
    else record current { children = children; updated_at = io.now }

unfoldable pub reconcile :
    Platform → Io → IntentRecord → List Child → Store → Result IntentRecord × Store
reconcile p io intent dispositions s =
    if children_valid p dispositions && all disposed dispositions
    then transition p io intent (unresolved ∷ []) (settle_reconciled io dispositions) s
    else (err request_invalid, s)

-- One interrupted record after a restart.
abbrev pub to_interrupted : Io → IntentRecord → IntentRecord
to_interrupted io intent = record intent {
  state = unresolved;
  resolution = some interrupted;
  effect_certainty = some (get_or intent.effect_certainty unknown);
  updated_at = io.now;
}

-- A failed write ends the loop; otherwise it goes on.
unfoldable pub after_write :
    Result (Unit {0})
    → Store
    → Result (List IntentRecord) × Store
    → Result (List IntentRecord) × Store
after_write (ok done) t rest = rest
after_write (err e) t rest = (err e, t)

-- The loop over one manager's records, `recovered` so far.
unfoldable pub recover_records :
    Io → String → List IntentRecord → List IntentRecord → Store → Result (List IntentRecord) × Store
unfolding after_write
recover_records io m [] recovered s = (ok recovered, s)
recover_records io m (r ∷ rs) recovered s =
    let (done, t) = write_intent io m (to_interrupted io r) s in
    let skip = recover_records io m rs recovered s in
    let rest = recover_records io m rs (recovered ++ to_interrupted io r ∷ []) t in
    if same_state r.state effecting then after_write done t rest else skip

unfoldable pub recover_section :
    Io
    → String
    → List IntentRecord
    → Store
    → Result (List IntentRecord)
    → Result (List IntentRecord) × Store
unfolding recover_records
recover_section io m recovered s (err e) = (err e, s)
recover_section io m recovered s (ok rs) = recover_records io m rs recovered s

-- One manager: a missing directory is skipped.
unfoldable pub recover_manager :
    Platform → Io → String → List IntentRecord → Store → Result (List IntentRecord) × Store
unfolding recover_section
recover_manager p io m recovered s =
    if not (is_session_key m)
    then (err request_invalid, s)
    else if not io.trusted
    then (err unavailable, s)
    else if not (is_some (get m s))
    then (ok recovered, s)
    else if io.locked
    then recover_section io m recovered s (list_dir p m s)
    else (err unavailable, s)

-- The next manager, unless the last one failed.
unfoldable pub after_manager :
    (List IntentRecord → Store → Result (List IntentRecord) × Store)
    → Result (List IntentRecord) × Store
    → Result (List IntentRecord) × Store
after_manager next (ok found, t) = next found t
after_manager next (err e, t) = (err e, t)

unfoldable pub recover_managers :
    Platform → Io → List String → List IntentRecord → Store → Result (List IntentRecord) × Store
unfolding recover_manager after_manager
recover_managers p io [] recovered s = (ok recovered, s)
recover_managers p io (m ∷ ms) recovered s =
    after_manager (recover_managers p io ms) (recover_manager p io m recovered s)

-- `recoverInterrupted(key?)`.
unfoldable pub recover_interrupted :
    Platform → Io → Option String → Store → Result (List IntentRecord) × Store
unfolding recover_managers
recover_interrupted p io none s =
    if io.trusted then recover_managers p io (list_managers s) [] s else (err unavailable, s)
recover_interrupted p io (some m) s = recover_managers p io (m ∷ []) [] s

-- `get`: the record of one binding.
unfoldable pub get_intent : Platform → Io → String → String → Store → Result (Option IntentRecord)
get_intent p io m k s =
    if not (is_idempotency_key k && is_session_key m)
    then err request_invalid
    else if not io.trusted
    then err unavailable
    else read_intent p m k s

-- The operations that change the store, with the arguments of each.
pub data Op : Type 0 where
  begins : BeginInput → Op
  marks_effecting : IntentRecord → Op
  records_children completes reconciles : IntentRecord → List Child → Op
  fails : IntentRecord → FailInput → Op
  recovers : Option String → Op

pub step : Platform → Io → Op → Store → Store
step p io (begins input) s = (begin p io input s).1
step p io (marks_effecting intent) s = (mark_effecting p io intent s).1
step p io (records_children intent added) s = (record_children p io intent added s).1
step p io (completes intent added) s = (complete p io intent added s).1
step p io (reconciles intent given) s = (reconcile p io intent given s).1
step p io (fails intent outcome) s = (fail p io intent outcome s).1
step p io (recovers key) s = (recover_interrupted p io key s).1

-- A history of operations, each under its own environment.
pub run : Platform → List (Io × Op) → Store → Store
run p [] s = s
run p ((io, op) ∷ ops) s = run p ops (step p io op s)
