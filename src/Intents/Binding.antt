-- ===== src/Intents/Binding.antt =====
-- One launch for one binding: `begin` of src/daemon/intents.ts.
use herdr_tools.Base.{
  ◌≡◌, refl, ap, ◌∙◌, true, false, ◌&&◌, String, ◌==◌, List, Option, some, none, ◌⊎◌, inl, inr,
  arith, eq_iff, eq_refl, ◌≢◌, if◌then◌else◌, Bool-cases,
}
use herdr_tools.Intents.Record.{
  IntentState, recorded, IntentRecord, Platform, IntentError, key_conflict, malformed,
  is_intent_record,
}
use herdr_tools.Intents.Files.{
  Store, Io, Result, ok, err, stored, untrusted, unparsed, StoredFile, file_at, read_file,
  read_intent, ensure_dir, write_intent, file_at-put_file, file_at-ensure_dir,
}
use herdr_tools.Intents.Lifecycle.{read_intent-none}
use herdr_tools.Intents.History.{run-Continues}
use herdr_tools.Intents.{
  BeginInput, Verdict, launch, replay, reconcile_first, begin, begin_section, verdict_on,
  valid_input, fresh_record, commit, Op, run,
}

-- What `begin` answers under the flock, as a function of the file that it finds.
begin_section-fresh :
    (p : Platform) (io : Io) (input : BeginInput) (s : Store) (found : Result (Option IntentRecord))
    (r : IntentRecord)
    → (begin_section p io input s found).0 ≡ ok (launch r false)
    → (found ≡ ok none)
      × (file_at input.manager_session_key input.idempotency_key
            (begin_section p io input s found).1
          ≡ some (stored r))
unfolding begin_section commit write_intent
begin_section-fresh p io input s (err e) r h = cc
begin_section-fresh p io input s (ok (some x)) r h = ground arith
begin_section-fresh p io input s (ok none) r h = ground (
  arith,
  file_at-put_file input.manager_session_key input.idempotency_key input.manager_session_key
      input.idempotency_key (stored (fresh_record p io input)) s,
  eq_refl input.manager_session_key,
  eq_refl input.idempotency_key,
)

-- A fresh launch is answered only where no file was, and its record is then on disk.
pub begin-fresh :
    (p : Platform) (io : Io) (input : BeginInput) (s : Store) (r : IntentRecord)
    → (begin p io input s).0 ≡ ok (launch r false)
    → (file_at input.manager_session_key input.idempotency_key s ≡ none)
      × (file_at input.manager_session_key input.idempotency_key (begin p io input s).1
          ≡ some (stored r))
unfolding begin
begin-fresh p io input s r h =
    let t = ensure_dir input.manager_session_key s in
    let found = read_intent p input.manager_session_key input.idempotency_key t in
    ground (
      arith,
      begin_section-fresh p io input t found r,
      read_intent-none p input.manager_session_key input.idempotency_key t,
      file_at-ensure_dir input.manager_session_key input.manager_session_key input.idempotency_key
          s,
    )

-- A binding launches afresh once: after a fresh launch, whatever happens to the store, no later
-- request for the same session and key is answered with a fresh launch.
pub fresh_once :
    (p : Platform) (io io' : Io) (input later : BeginInput) (ops : List (Io × Op)) (s : Store)
    (r r' : IntentRecord)
    → (begin p io input s).0 ≡ ok (launch r false)
    → later.manager_session_key ≡ input.manager_session_key
    → later.idempotency_key ≡ input.idempotency_key
    → (begin p io' later (run p ops (begin p io input s).1)).0 ≢ ok (launch r' false)
fresh_once p io io' input later ops s r r' h same_m same_k again =
    let t = run p ops (begin p io input s).1 in
    let (x, there, _) =
      run-Continues p ops (begin p io input s).1 input.manager_session_key input.idempotency_key r
        (begin-fresh p io input s r h).1 in
    let gone = (begin-fresh p io' later t r' again).0 in cc (there, gone, same_m, same_k)

file_at-some_dir :
    (m k : String) (s : Store) (f : StoredFile) → file_at m k s ≡ some f → ensure_dir m s ≡ s
unfolding file_at ensure_dir
file_at-some_dir m k s f h = ground arith

begin_section_keeps :
    (p : Platform) (io : Io) (input : BeginInput) (s : Store) (found : Result (Option IntentRecord))
    → found ≢ ok none
    → (begin_section p io input s found).1 ≡ s
unfolding begin_section
begin_section_keeps p io input s found h = ground arith

read_file-ne-none :
    (p : Platform) (m k : String) (f : StoredFile) → read_file p m k (some f) ≢ ok none
unfolding read_file
read_file-ne-none p m k untrusted = cc
read_file-ne-none p m k unparsed = cc
read_file-ne-none p m k (stored r) = ground arith

-- Where a file stands for the binding, whatever it holds, `begin` writes nothing: the answer is a
-- resumed launch, a replay, an unresolved intent or an error, and the store is left as it is.
pub begin_on_existing :
    (p : Platform) (io : Io) (input : BeginInput) (s : Store) (f : StoredFile)
    → file_at input.manager_session_key input.idempotency_key s ≡ some f
    → (begin p io input s).1 ≡ s
unfolding begin read_intent
begin_on_existing p io input s f h =
    let m = input.manager_session_key in
    let k = input.idempotency_key in
    ground (
      arith,
      file_at-some_dir m k s f h,
      begin_section_keeps p io input s (read_file p m k (some f)) (read_file-ne-none p m k f),
    )

-- What an accepted request is answered on a record that matches its file.
begin-answers :
    (p : Platform) (io : Io) (input : BeginInput) (s : Store) (r : IntentRecord)
    → valid_input p input ≡ true
    → io.trusted ≡ true
    → io.locked ≡ true
    → file_at input.manager_session_key input.idempotency_key s ≡ some (stored r)
    → is_intent_record p r ≡ true
    → r.idempotency_key ≡ input.idempotency_key
    → r.manager_session_key ≡ input.manager_session_key
    → (begin p io input s).0 ≡ (
        if r.task_digest == p.task_digest input.task && r.project_root == input.project_root
        then ok (verdict_on r.state r)
        else err key_conflict)
unfolding begin begin_section read_intent read_file
begin-answers p io input s r valid trusted locked here good key manager = ground (
  arith,
  file_at-some_dir input.manager_session_key input.idempotency_key s (stored r) here,
  eq_iff r.idempotency_key input.idempotency_key,
  eq_iff r.manager_session_key input.manager_session_key,
)

-- The record that an answer carries.
abbrev pub answered : Verdict → IntentRecord
answered (launch r resumed) = r
answered (replay r) = r
answered (reconcile_first r) = r

answered-verdict_on : (a : IntentState) (r : IntentRecord) → answered (verdict_on a r) ≡ r
unfolding verdict_on
answered-verdict_on recorded r = refl
answered-verdict_on _ r = refl

begin_section-answered :
    (p : Platform) (io : Io) (input : BeginInput) (s : Store) (found : Result (Option IntentRecord))
    (x : IntentRecord) (v : Verdict)
    → (found ≡ ok (some x)) ⊎ ((e : IntentError) × (found ≡ err e))
    → (begin_section p io input s found).0 ≡ ok v
    → answered v ≡ x
unfolding begin_section
begin_section-answered p io input s found x v (inl e) h =
    ground (arith, answered-verdict_on x.state x)
begin_section-answered p io input s found x v (inr (e, f)) h = ground arith

read_stored :
    (p : Platform) (m k : String) (x : IntentRecord)
    → (read_file p m k (some (stored x)) ≡ ok (some x))
      ⊎ ((e : IntentError) × (read_file p m k (some (stored x)) ≡ err e))
unfolding read_file
read_stored p m k x =
    elim (Bool-cases
      (is_intent_record p x && (x.idempotency_key == k && x.manager_session_key == m))) [
        | inl e ↦ inl (rw e)
        | inr e ↦ inr (malformed, rw e)
      ]

begin-answered :
    (p : Platform) (io : Io) (input : BeginInput) (s : Store) (x : IntentRecord) (v : Verdict)
    → file_at input.manager_session_key input.idempotency_key s ≡ some (stored x)
    → (begin p io input s).0 ≡ ok v
    → answered v ≡ x
unfolding begin read_intent
begin-answered p io input s x v here h =
    let m = input.manager_session_key in
    let k = input.idempotency_key in
    ground (
      arith,
      file_at-some_dir m k s (stored x) here,
      begin_section-answered p io input s (read_file p m k (some (stored x))) x v
          (read_stored p m k x),
    )

-- After a fresh launch, whatever happens to the store, every answer to a later request for the same
-- session and key carries the launch identity that was minted first.
pub same_launch_forever :
    (p : Platform) (io io' : Io) (input later : BeginInput) (ops : List (Io × Op)) (s : Store)
    (r : IntentRecord) (v : Verdict)
    → (begin p io input s).0 ≡ ok (launch r false)
    → later.manager_session_key ≡ input.manager_session_key
    → later.idempotency_key ≡ input.idempotency_key
    → (begin p io' later (run p ops (begin p io input s).1)).0 ≡ ok v
    → (answered v).launch_id ≡ r.launch_id
same_launch_forever p io io' input later ops s r v h same_m same_k again =
    let t = run p ops (begin p io input s).1 in
    let (x, there, c) =
      run-Continues p ops (begin p io input s).1 input.manager_session_key input.idempotency_key r
        (begin-fresh p io input s r h).1 in
    let there' : file_at later.manager_session_key later.idempotency_key t ≡ some (stored x) =
      cc (there, same_m, same_k) in
    ap (λ (y : IntentRecord). y.launch_id) (begin-answered p io' later t x v there' again)
    ∙ c.launch
