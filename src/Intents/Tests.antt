-- ===== src/Intents/Tests.antt =====
-- Runs of the intent store, and its theorems at concrete inputs.
use herdr_tools.Base.{
  ◌≡◌, refl, ◌≢◌, Bool, true, false, ◌||◌, String, List, [], ◌∷◌, some, none, inl, is_identifier,
}
use herdr_tools.Base.Dict.{get, put}
use herdr_tools.Intents.Record.{
  recorded, effecting, completed, failed, unresolved, absent, Child, identity_lost, IntentRecord,
  Platform, LaunchTask, merge_children, is_settled, is_session_key, is_idempotency_key,
  is_intent_record, is_failure_code, is_failure_phase,
}
use herdr_tools.Intents.Files.{
  Store, Io, ok, stored, file_at, committed, read_intent, ensure_dir, write_intent, put_file,
  list_dir, list_managers,
}
use herdr_tools.Intents.Lifecycle.{Change}
use herdr_tools.Intents.Changes.{step-Change}
use herdr_tools.Intents.History.{terminal_forever, run-Continues, Continues}
use herdr_tools.Intents.Binding.{fresh_once, same_launch_forever, answered}
use herdr_tools.Intents.Outcomes.{Fails, Reconciles, fail_settles, reconcile_settles}
use herdr_tools.Intents.Children.{has_name, distinct, merge_children_names}
use herdr_tools.Intents.{
  BeginInput, FailInput, launch, begin, fail, reconcile, mark_effecting, Op, begins,
  marks_effecting, recovers, step, run, reconcile_first, to_interrupted, transition, complete,
  settle_failure, settle_reconciled, recover_interrupted,
}

abbrev manager : String
manager = "0123456789abcdef0123456789abcdef0123456789abcdef0123456789abcdef"

abbrev platform : Platform
platform = record {
  date_parses = λ s. true;
  valid_task = λ t. true;
  task_digest = λ t. "aaaaaaaaaaaaaaaaaaaaaaaaaaaaaaaaaaaaaaaaaaaaaaaaaaaaaaaaaaaaaaaa";
}

abbrev healthy : Io
healthy = record {
  trusted = true;
  locked = true;
  now = "2026-01-01T00:00:00.000Z";
  later = "2026-01-01T00:00:00.001Z";
  minted = "launch-1";
  write = λ r. committed;
}

abbrev task : LaunchTask
task = record {
  objective = "o";
  scope = "s";
  done_when = "d" ∷ [];
  constraints = none;
  tier = none;
  recovery_of = none;
  label = none;
  cwd = none;
  operating_point = none;
  retention = none;
}

abbrev request : BeginInput
request = record {
  manager_session_key = manager;
  idempotency_key = "k1";
  task = task;
  project_root = "/p";
}

abbrev first : IntentRecord
first = record {
  manager_session_key = manager;
  idempotency_key = "k1";
  task_digest = platform.task_digest task;
  launch_id = "launch-1";
  project_root = "/p";
  state = recorded;
  recorded_at = healthy.now;
  updated_at = healthy.later;
  children = [];
  effect_certainty = none;
  failure_code = none;
  failure_phase = none;
  resolution = none;
  reconciled = false;
}

abbrev begun : Store
begun = (manager, ("k1", stored first) ∷ []) ∷ []

-- Opens the code that a run of the store goes through.
store_code : Bool
unfolding begin is_session_key is_idempotency_key is_identifier read_intent get ensure_dir put
    write_intent put_file file_at run step mark_effecting transition complete fail reconcile
    settle_failure settle_reconciled is_intent_record is_failure_code is_failure_phase is_settled
    recover_interrupted list_dir list_managers merge_children
store_code = true

first_launched : (begin platform healthy request []).0 ≡ ok (launch first false)
unfolding store_code
first_launched = refl

abbrev second : IntentRecord
second = record first { state = effecting; updated_at = healthy.now }

abbrev third : IntentRecord
third = record second { state = completed }

abbrev ended : Store
ended = (manager, ("k1", stored third) ∷ []) ∷ []

abbrev whole_life : List (Io × Op)
whole_life =
    (healthy, marks_effecting first) ∷ (healthy, recovers none) ∷ (healthy, begins request) ∷ []

-- The sweep marks the interrupted launch, and a retry is then told to reconcile it.
swept_retry :
    (begin platform healthy request (run platform whole_life begun)).0
    ≡ ok (reconcile_first (to_interrupted healthy second))
unfolding store_code
swept_retry = refl

step-Change_example :
    Change
      (file_at manager "k1" begun)
      (file_at manager "k1" (step platform healthy (marks_effecting first) begun))
step-Change_example = step-Change platform healthy (marks_effecting first) begun manager "k1"

terminal_forever_example :
    file_at manager "k1" (run platform whole_life ended) ≡ some (stored third)
terminal_forever_example =
    terminal_forever platform whole_life ended manager "k1" third (inl refl)
      (unfold store_code in refl)

run-Continues_example :
    (r : IntentRecord) × (file_at manager "k1" (run platform whole_life begun) ≡ some (stored r))
    × Continues first r
run-Continues_example =
    run-Continues platform whole_life begun manager "k1" first (unfold store_code in refl)

fresh_once_example :
    (begin platform healthy request
      (run platform whole_life (begin platform healthy request []).1)).0
    ≢ ok (launch second false)
fresh_once_example =
    fresh_once platform healthy healthy request request whole_life [] first second first_launched
      refl refl

same_launch_forever_example :
    (answered (reconcile_first (to_interrupted healthy second))).launch_id ≡ first.launch_id
same_launch_forever_example =
    same_launch_forever platform healthy healthy request request whole_life [] first
      (reconcile_first (to_interrupted healthy second)) first_launched refl refl
      (unfold store_code in refl)

abbrev clean_failure : FailInput
clean_failure = record {
  certainty = absent;
  failure_code = some "CLI_TIMEOUT";
  failure_phase = some "start";
  children = [];
}

abbrev failed_first : IntentRecord
failed_first = record first {
  state = failed;
  effect_certainty = some absent;
  failure_code = some "CLI_TIMEOUT";
  failure_phase = some "start";
  updated_at = healthy.now;
}

fail_settles_example :
    ((before : IntentRecord) × (file_at manager "k1" begun ≡ some (stored before))
      × Fails clean_failure "task-1" before failed_first)
    × (file_at manager "k1" (fail platform healthy first clean_failure begun).1
        ≡ some (stored failed_first))
fail_settles_example =
    fail_settles platform healthy first clean_failure begun failed_first "task-1"
      (unfold store_code in refl)

abbrev lost_child : Child
lost_child = record {
  name = "task-1";
  run_id = some "r1";
  disposition = some identity_lost;
  evidence = none;
}

abbrev doubtful : IntentRecord
doubtful = record first {
  state = unresolved;
  children = record lost_child { disposition = none } ∷ [];
}

abbrev in_doubt : Store
in_doubt = (manager, ("k1", stored doubtful) ∷ []) ∷ []

abbrev closed : IntentRecord
closed = record doubtful {
  state = completed;
  reconciled = true;
  children = lost_child ∷ [];
  updated_at = healthy.now;
}

reconcile_settles_example :
    ((before : IntentRecord) × (file_at manager "k1" in_doubt ≡ some (stored before))
      × Reconciles (lost_child ∷ []) "task-1" before closed)
    × (file_at manager "k1" (reconcile platform healthy doubtful (lost_child ∷ []) in_doubt).1
        ≡ some (stored closed))
reconcile_settles_example =
    reconcile_settles platform healthy doubtful (lost_child ∷ []) in_doubt closed "task-1"
      (unfold store_code in refl)

merge_children_names_example :
    (distinct (merge_children doubtful.children (lost_child ∷ [])) ≡ true)
    × (has_name "task-1" (merge_children doubtful.children (lost_child ∷ []))
        ≡ (has_name "task-1" doubtful.children || has_name "task-1" (lost_child ∷ [])))
merge_children_names_example =
    merge_children_names "task-1" doubtful.children (lost_child ∷ []) refl
