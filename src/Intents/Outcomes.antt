-- ===== src/Intents/Outcomes.antt =====
-- How `fail` and `reconcile` of src/daemon/intents.ts settle an intent.
use herdr_tools.Base.{
  ◌≡◌, refl, sym, subst, true, false, ◌&&◌, String, List, [], ◌∷◌, Option, length, all, arith, some,
  none, ◌⊎◌, inl, inr, eq_iff, ◌≢◌, Bool-cases, any, eq_refl,
}
use herdr_tools.Intents.Record.{
  IntentState, recorded, effecting, completed, failed, unresolved, absent, IntentRecord, Platform,
  Child, request_invalid, children_valid, merge_children, disposed,
}
use herdr_tools.Intents.Merged.{
  IsMerged, merge_children-IsMerged, merge_children_none, some_unclear, is_settled-some_unclear,
}
use herdr_tools.Intents.Files.{
  Store, Io, Result, ok, err, stored, file_at, read_intent, write_intent, put_file,
  file_at-put_file,
}
use herdr_tools.Intents.Lifecycle.{read_intent-some}
use herdr_tools.Intents.{
  transition, transition_section, commit, same_state, fail, FailInput, settle_failure, reconcile,
  settle_reconciled, valid_failure,
}

-- A transition that answers has read the record, found its launch and a state that it expects, and
-- written the change that it answers with.
record Transited (intent : IntentRecord) (expect : List IntentState)
    (mutate : IntentRecord → IntentRecord) (s t : Store) (answer : IntentRecord) : Type 0 where
  pub before : IntentRecord
  pub here : file_at intent.manager_session_key intent.idempotency_key s ≡ some (stored before)
  pub launch : before.launch_id ≡ intent.launch_id
  pub allowed : any (same_state before.state) expect ≡ true
  pub answer_eq : answer ≡ mutate before
  pub written : t ≡ put_file intent.manager_session_key answer.idempotency_key (stored answer) s

transition_section-ok :
    (p : Platform) (io : Io) (intent : IntentRecord) (expect : List IntentState)
    (mutate : IntentRecord → IntentRecord) (s : Store) (found : Result (Option IntentRecord))
    (answer : IntentRecord)
    → read_intent p intent.manager_session_key intent.idempotency_key s ≡ found
    → (transition_section io intent expect mutate s found).0 ≡ ok answer
    → Transited intent expect mutate s (transition_section io intent expect mutate s found).1 answer
unfolding transition_section commit write_intent
transition_section-ok p io intent expect mutate s (err e) answer f h = absurd (cc)
transition_section-ok p io intent expect mutate s (ok none) answer f h = absurd (cc)
transition_section-ok p io intent expect mutate s (ok (some r)) answer f h = record {
  before = r;
  here = (read_intent-some p intent.manager_session_key intent.idempotency_key s f).0;
  launch = ground (arith, eq_iff r.launch_id intent.launch_id);
  allowed = ground arith;
  answer_eq = ground arith;
  written = ground arith;
}

transition-ok :
    (p : Platform) (io : Io) (intent : IntentRecord) (expect : List IntentState)
    (mutate : IntentRecord → IntentRecord) (s : Store) (answer : IntentRecord)
    → (transition p io intent expect mutate s).0 ≡ ok answer
    → Transited intent expect mutate s (transition p io intent expect mutate s).1 answer
unfolding transition
transition-ok p io intent expect mutate s answer h =
    subst (λ x. Transited intent expect mutate s x.1 answer) (sym same)
      (transition_section-ok p io intent expect mutate s found answer refl
        (subst (λ x. x.0 ≡ ok answer) same h))
  where
    found : Result (Option IntentRecord)
    found = read_intent p intent.manager_session_key intent.idempotency_key s

    same :
        transition p io intent expect mutate s ≡ transition_section io intent expect mutate s found
    same = ground arith

written_there :
    (m : String) (x : IntentRecord) (s : Store)
    → file_at m x.idempotency_key (put_file m x.idempotency_key (stored x) s) ≡ some (stored x)
written_there m x s = rw file_at-put_file (rw (eq_refl m, eq_refl x.idempotency_key))

-- What `fail` has made of the record `before`, with the children of one name.
pub record Fails (outcome : FailInput) (n : String) (before x : IntentRecord) : Type 0 where
  pub merged : IsMerged n before.children outcome.children x.children
  pub state :
      ((x.state ≡ failed)
        × (outcome.certainty ≡ absent)
        × (length before.children ≡ 0)
        × (length outcome.children ≡ 0))
      ⊎ ((x.state ≡ unresolved)
          × ((outcome.certainty ≢ absent)
              ⊎ ((length before.children ≢ 0) ⊎ (length outcome.children ≢ 0))))

settle_failure-Fails :
    (io : Io) (outcome : FailInput) (n : String) (r : IntentRecord)
    → Fails outcome n r (settle_failure io outcome r)
unfolding settle_failure
settle_failure-Fails io outcome n r = record {
  merged =
      subst (IsMerged n r.children outcome.children) (ground arith)
        (merge_children-IsMerged n r.children outcome.children);
  state = ground (arith, merge_children_none r.children outcome.children);
}

-- `fail` that answers with `x` has read a record, and `x` is what is on disk after it. A name is among
-- the children of `x` if it was recorded or is in the outcome, and the run, the disposition and the
-- evidence of the first child of a name are the last ones that the outcome gives, or those recorded.
-- `x` is `failed` exactly on absent certainty where neither the record nor the outcome has a child,
-- and `unresolved` otherwise.
pub fail_settles :
    (p : Platform) (io : Io) (intent : IntentRecord) (outcome : FailInput) (s : Store)
    (x : IntentRecord) (n : String)
    → (fail p io intent outcome s).0 ≡ ok x
    → ((before : IntentRecord) × (file_at intent.manager_session_key intent.idempotency_key s
          ≡ some (stored before))
        × Fails outcome n before x)
      × (file_at intent.manager_session_key x.idempotency_key (fail p io intent outcome s).1
          ≡ some (stored x))
unfolding fail
fail_settles p io intent outcome s x n h = elim (Bool-cases (valid_failure p outcome)) [
  | inl e ↦ rw e (settled (rw e at h))
  | inr e ↦ absurd (refused (rw e at h))
]
  where
    refused : ◌≡◌ {A = Result IntentRecord} (err request_invalid) (ok x) → ⊥
    refused g = cc

    expect : List IntentState
    expect = recorded ∷ effecting ∷ []

    settled :
        (transition p io intent expect (settle_failure io outcome) s).0 ≡ ok x
        → ((before : IntentRecord) × (file_at intent.manager_session_key intent.idempotency_key s
              ≡ some (stored before))
            × Fails outcome n before x)
          × (file_at intent.manager_session_key x.idempotency_key
                (transition p io intent expect (settle_failure io outcome) s).1
              ≡ some (stored x))
    settled g =
        let t = transition-ok p io intent expect (settle_failure io outcome) s x g in
        (
          (
            t.before,
            t.here,
            subst (Fails outcome n t.before) (sym t.answer_eq)
                (settle_failure-Fails io outcome n t.before),
          ),
          rw t.written (written_there intent.manager_session_key x s),
        )

-- What `reconcile` has made of the record `before`, with the children of one name.
pub record Reconciles (given : List Child) (n : String) (before x : IntentRecord) : Type 0 where
  pub merged : IsMerged n before.children given x.children
  pub state :
      ((x.state ≡ completed)
        × (x.reconciled ≡ true)
        × (length x.children ≢ 0)
        × (some_unclear x.children ≡ false))
      ⊎ ((x.state ≡ unresolved)
          × (x.reconciled ≡ before.reconciled)
          × ((length x.children ≡ 0) ⊎ (some_unclear x.children ≡ true)))

settle_reconciled-Reconciles :
    (io : Io) (given : List Child) (n : String) (r : IntentRecord)
    → r.state ≡ unresolved
    → Reconciles given n r (settle_reconciled io given r)
unfolding settle_reconciled
settle_reconciled-Reconciles io given n r h = record {
  merged =
      subst (IsMerged n r.children given) (ground arith)
        (merge_children-IsMerged n r.children given);
  state = ground (arith, is_settled-some_unclear (merge_children r.children given));
}

-- `reconcile` that answers with `x` has read a record, and `x` is what is on disk after it. A name
-- is among the children of `x` if it was recorded or is given, and the run, the disposition and the
-- evidence of the first child of a name are the last ones given, or those recorded. `x` is
-- `completed` and `reconciled` exactly where it has a child and every child is bound or of lost
-- identity; otherwise, with no child or with one that is ambiguous or has no disposition, it is
-- `unresolved`, and as much reconciled as before.
pub reconcile_settles :
    (p : Platform) (io : Io) (intent : IntentRecord) (given : List Child) (s : Store)
    (x : IntentRecord) (n : String)
    → (reconcile p io intent given s).0 ≡ ok x
    → ((before : IntentRecord) × (file_at intent.manager_session_key intent.idempotency_key s
          ≡ some (stored before))
        × Reconciles given n before x)
      × (file_at intent.manager_session_key x.idempotency_key (reconcile p io intent given s).1
          ≡ some (stored x))
unfolding reconcile
reconcile_settles p io intent given s x n h =
    elim (Bool-cases (children_valid p given && all disposed given)) [
      | inl e ↦ rw e (settled (rw e at h))
      | inr e ↦ absurd (refused (rw e at h))
    ]
  where
    refused : ◌≡◌ {A = Result IntentRecord} (err request_invalid) (ok x) → ⊥
    refused g = cc

    expected_unresolved :
        (r : IntentRecord)
        → any (same_state r.state) (unresolved ∷ []) ≡ true
        → r.state ≡ unresolved
    expected_unresolved r g = ground arith

    settled :
        (transition p io intent (unresolved ∷ []) (settle_reconciled io given) s).0 ≡ ok x
        → ((before : IntentRecord) × (file_at intent.manager_session_key intent.idempotency_key s
              ≡ some (stored before))
            × Reconciles given n before x)
          × (file_at intent.manager_session_key x.idempotency_key
                (transition p io intent (unresolved ∷ []) (settle_reconciled io given) s).1
              ≡ some (stored x))
    settled g =
        let t = transition-ok p io intent (unresolved ∷ []) (settle_reconciled io given) s x g in
        (
          (
            t.before,
            t.here,
            subst (Reconciles given n t.before) (sym t.answer_eq) (
                settle_reconciled-Reconciles io given n t.before
                  (expected_unresolved t.before t.allowed)),
          ),
          rw t.written (written_there intent.manager_session_key x s),
        )
