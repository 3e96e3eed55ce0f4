-- ===== src/Intents/Changes.antt =====
-- Every operation of src/daemon/intents.ts changes each record file along the lifecycle or not at all.
use herdr_tools.Base.{
  ◌≡◌, refl, sym, subst, ap, Bool, true, ◌&&◌, ◌∙◌, String, ◌==◌, List, [], ◌∷◌, Option, none, some,
  arith, eq_iff, Bool-cases, inl, inr, any, all, and-eq-true, if◌then◌else◌, false,
}
use herdr_tools.Intents.Record.{
  IntentState, recorded, effecting, unresolved, Child, IntentRecord, Platform, request_invalid,
  children_valid, disposed,
}
use herdr_tools.Intents.Files.{
  Store, Io, Result, ok, err, StoredFile, stored, file_at, put_file, read_intent, ensure_dir,
  file_at-put_file, file_at-ensure_dir,
}
use herdr_tools.Intents.Lifecycle.{
  edges, Follows, Change, same, created, moved, transition_cases, write_intent_cases,
  read_intent-none,
}
use herdr_tools.Intents.Recovery.{Swept, untouched, marked, recover_interrupted-Sweep}
use herdr_tools.Intents.{
  transition, same_state, to_effecting, mark_effecting, with_children, record_children,
  to_completed, complete, settle_failure, fail, FailInput, settle_reconciled, reconcile, BeginInput,
  begin, begin_section, fresh_record, to_interrupted, recover_interrupted, Op, begins,
  marks_effecting, records_children, completes, reconciles, fails, recovers, step, valid_failure,
}

Change-put :
    (m k m' k' : String) (r r' : IntentRecord) (s : Store)
    → file_at m k s ≡ some (stored r)
    → r.idempotency_key ≡ k
    → Follows r r'
    → Change (file_at m' k' s) (file_at m' k' (put_file m r'.idempotency_key (stored r') s))
Change-put m k m' k' r r' s here key f = elim (Bool-cases (m == m' && r'.idempotency_key == k')) [
  | inl e ↦
      let (em, ek) = and-eq-true _ _ e in
      moved r r'
        (subst (λ x. file_at x k' s ≡ some (stored r)) ((eq_iff m m').0 em)
          (subst (λ x. file_at m x s ≡ some (stored r))
            (sym key ∙ sym f.key ∙ (eq_iff r'.idempotency_key k').0 ek) here))
        (rw (file_at-put_file m r'.idempotency_key m' k' (stored r') s, e)) f
  | inr e ↦ same (rw (file_at-put_file m r'.idempotency_key m' k' (stored r') s, e))
]

transition-Change :
    (p : Platform) (io : Io) (intent : IntentRecord) (expect : List IntentState)
    (mutate : IntentRecord → IntentRecord) (s : Store) (m' k' : String)
    → ((r : IntentRecord) → any (same_state r.state) expect ≡ true → Follows r (mutate r))
    → Change (file_at m' k' s) (file_at m' k' (transition p io intent expect mutate s).1)
transition-Change p io intent expect mutate s m' k' follows =
    transition_cases (λ t. Change (file_at m' k' s) (file_at m' k' t)) p io intent expect mutate s
      (same refl)
      (λ r here key allowed.
        Change-put intent.manager_session_key intent.idempotency_key m' k' r (mutate r) s here key
          (follows r allowed))

-- Each change that a transition writes follows the record that it expects.
module _ (io : Io) (r : IntentRecord) where
  to_effecting-Follows :
      any (same_state r.state) (recorded ∷ []) ≡ true → Follows r (to_effecting io r)
  to_effecting-Follows h = grind (arith, edges)

  with_children-Follows :
      (added : List Child)
      → any (same_state r.state) (effecting ∷ []) ≡ true
      → Follows r (with_children io added r)
  with_children-Follows added h = grind (arith, edges)

  to_completed-Follows :
      (added : List Child)
      → any (same_state r.state) (effecting ∷ []) ≡ true
      → Follows r (to_completed io added r)
  to_completed-Follows added h = grind (arith, edges)

  settle_failure-Follows :
      (outcome : FailInput)
      → any (same_state r.state) (recorded ∷ effecting ∷ []) ≡ true
      → Follows r (settle_failure io outcome r)
  unfolding settle_failure
  settle_failure-Follows outcome h = grind (arith, edges)

  settle_reconciled-Follows :
      (given : List Child)
      → any (same_state r.state) (unresolved ∷ []) ≡ true
      → Follows r (settle_reconciled io given r)
  unfolding settle_reconciled
  settle_reconciled-Follows given h = grind (arith, edges)

  to_interrupted-Follows : same_state r.state effecting ≡ true → Follows r (to_interrupted io r)
  to_interrupted-Follows h = grind (arith, edges)

-- A binding that is there is answered, and nothing is written.
pub begin_found :
    (p : Platform) (io : Io) (input : BeginInput) (s : Store) (r : IntentRecord)
    → (begin_section p io input s (ok (some r))).1 ≡ s
unfolding begin_section
begin_found p io input s r = ground arith

begin_section-Change :
    (p : Platform) (io : Io) (input : BeginInput) (s : Store) (found : Result (Option IntentRecord))
    (m' k' : String)
    → read_intent p input.manager_session_key input.idempotency_key s ≡ found
    → Change (file_at m' k' s) (file_at m' k' (begin_section p io input s found).1)
unfolding begin_section
begin_section-Change p io input s (err e) m' k' h = same refl
begin_section-Change p io input s (ok (some r)) m' k' h =
    same (ap (file_at m' k') (begin_found p io input s r))
begin_section-Change p io input s (ok none) m' k' h =
    write_intent_cases (λ t. Change (file_at m' k' s) (file_at m' k' t)) io
      input.manager_session_key (fresh_record p io input) s (same refl)
      (elim (Bool-cases (input.manager_session_key == m' && input.idempotency_key == k')) [
        | inl e ↦
            let (em, ek) = and-eq-true _ _ e in
            created (fresh_record p io input)
              (subst (λ x. file_at x k' s ≡ none) ((eq_iff _ m').0 em)
                (subst (λ x. file_at input.manager_session_key x s ≡ none) ((eq_iff _ k').0 ek)
                  (read_intent-none p input.manager_session_key input.idempotency_key s h)))
              (rw (file_at-put_file _ _ m' k' (stored (fresh_record p io input)) s, e)) refl
        | inr e ↦ same (rw (file_at-put_file _ _ m' k' (stored (fresh_record p io input)) s, e))
      ])

begin_cases {ℓ} :
    (P : Store → Type ℓ) (p : Platform) (io : Io) (input : BeginInput) (s : Store)
    → P s
    → (let t = ensure_dir input.manager_session_key s in
        P t
        × P
            (begin_section p io input t
              (read_intent p input.manager_session_key input.idempotency_key t)).1)
    → P (begin p io input s).1
unfolding begin
begin_cases P p io input s old new = ground arith

begin-Change :
    (p : Platform) (io : Io) (input : BeginInput) (s : Store) (m' k' : String)
    → Change (file_at m' k' s) (file_at m' k' (begin p io input s).1)
begin-Change p io input s m' k' =
    begin_cases (λ t. Change (file_at m' k' s) (file_at m' k' t)) p io input s (same refl)
      (
        same dir,
        subst (λ x. Change x (file_at m' k' (begin_section p io input t found).1)) dir
            (begin_section-Change p io input t found m' k' refl),
      )
  where
    t : Store
    t = ensure_dir input.manager_session_key s

    found : Result (Option IntentRecord)
    found = read_intent p input.manager_session_key input.idempotency_key t

    dir : file_at m' k' t ≡ file_at m' k' s
    dir = file_at-ensure_dir input.manager_session_key m' k' s

Swept-Change : (io : Io) {old new : Option StoredFile} → Swept io old new → Change old new
Swept-Change io (untouched e) = same e
Swept-Change io (marked r h st f) =
    moved r (to_interrupted io r) h f (to_interrupted-Follows io r st)

recover_interrupted-Change :
    (p : Platform) (io : Io) (key : Option String) (s : Store) (m' k' : String)
    → Change (file_at m' k' s) (file_at m' k' (recover_interrupted p io key s).1)
recover_interrupted-Change p io key s m' k' =
    Swept-Change io ((recover_interrupted-Sweep p io key s).at m' k')

-- A transition behind a check of its request.
checked-Change :
    (b : Bool) (p : Platform) (io : Io) (intent : IntentRecord) (expect : List IntentState)
    (mutate : IntentRecord → IntentRecord) (s : Store) (m' k' : String)
    → ((r : IntentRecord) → any (same_state r.state) expect ≡ true → Follows r (mutate r))
    → Change (file_at m' k' s) (
        file_at m' k'
          (if b then transition p io intent expect mutate s else (err request_invalid, s)).1)
checked-Change true p io intent expect mutate s m' k' follows =
    transition-Change p io intent expect mutate s m' k' follows
checked-Change false p io intent expect mutate s m' k' follows = same refl

-- Whatever the operation, its arguments, the clock and the faults of the disk: each record file is
-- left as it was, or a fresh `recorded` record stands where there was no file, or the record is
-- overwritten by one with the same binding, digest, launch identity and project root whose state
-- follows an edge of the lifecycle.
pub step-Change :
    (p : Platform) (io : Io) (op : Op) (s : Store) (m k : String)
    → Change (file_at m k s) (file_at m k (step p io op s))
unfolding step mark_effecting record_children complete reconcile fail
step-Change p io (begins input) s m k = begin-Change p io input s m k
step-Change p io (marks_effecting intent) s m k =
    transition-Change p io intent _ _ s m k (to_effecting-Follows io)
step-Change p io (records_children intent added) s m k =
    checked-Change (children_valid p added) p io intent (effecting ∷ []) (with_children io added) s
      m k (λ r. with_children-Follows io r added)
step-Change p io (completes intent added) s m k =
    checked-Change (children_valid p added) p io intent (effecting ∷ []) (to_completed io added) s m
      k (λ r. to_completed-Follows io r added)
step-Change p io (reconciles intent given) s m k =
    checked-Change (children_valid p given && all disposed given) p io intent (unresolved ∷ [])
      (settle_reconciled io given) s m k (λ r. settle_reconciled-Follows io r given)
step-Change p io (fails intent outcome) s m k =
    checked-Change (valid_failure p outcome) p io intent (recorded ∷ effecting ∷ [])
      (settle_failure io outcome) s m k (λ r. settle_failure-Follows io r outcome)
step-Change p io (recovers key) s m k = recover_interrupted-Change p io key s m k
