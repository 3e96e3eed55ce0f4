-- ===== src/Intents/History.antt =====
-- Intent records over any history of operations (src/daemon/intents.ts).
use herdr_tools.Base.{
  ◌≡◌, refl, subst, ◌∙◌, String, List, [], ◌∷◌, Option, some, arith, ◌⊎◌, inl, inr,
}
use herdr_tools.Intents.Record.{IntentState, completed, failed, IntentRecord, Platform}
use herdr_tools.Intents.Files.{Store, Io, StoredFile, stored, file_at}
use herdr_tools.Intents.Lifecycle.{Edge, start, Follows, Change, same, created, moved}
use herdr_tools.Intents.Changes.{step-Change}
use herdr_tools.Intents.{Op, step, run}

abbrev pub IsTerminal : IntentState → Type 0
IsTerminal a = (a ≡ completed) ⊎ (a ≡ failed)

not-Edge_of_IsTerminal : {a b : IntentState} → IsTerminal a → Edge a b → ⊥
not-Edge_of_IsTerminal h start = ground arith
not-Edge_of_IsTerminal h _ = ground arith

terminal_kept :
    {old new : Option StoredFile} (r : IntentRecord)
    → IsTerminal r.state
    → Change old new
    → old ≡ some (stored r)
    → new ≡ some (stored r)
terminal_kept r h (same e) here = e ∙ here
terminal_kept r h (created x e _ _) here = cc
terminal_kept r h (moved x x' e e' f) here =
    let there : IsTerminal x.state = ground arith in absurd (not-Edge_of_IsTerminal there f.edge)

-- A `completed` or `failed` record is never written again: after any history of operations, with any
-- arguments and under any faults, its file holds the very same record.
pub terminal_forever :
    (p : Platform) (ops : List (Io × Op)) (s : Store) (m k : String) (r : IntentRecord)
    → IsTerminal r.state
    → file_at m k s ≡ some (stored r)
    → file_at m k (run p ops s) ≡ some (stored r)
unfolding run
terminal_forever p [] s m k r h here = here
terminal_forever p ((io, op) ∷ ops) s m k r h here =
    terminal_forever p ops (step p io op s) m k r h
      (terminal_kept r h (step-Change p io op s m k) here)

pub data Trail : IntentState → IntentState → Type 0 where
  stop : {a : IntentState} → Trail a a
  onward : {a b c : IntentState} → Edge a b → Trail b c → Trail a c

-- The same binding and launch, further along the lifecycle.
pub record Continues (old new : IntentRecord) : Type 0 where
  pub manager : new.manager_session_key ≡ old.manager_session_key
  pub key : new.idempotency_key ≡ old.idempotency_key
  pub digest : new.task_digest ≡ old.task_digest
  pub launch : new.launch_id ≡ old.launch_id
  pub root : new.project_root ≡ old.project_root
  pub trail : Trail old.state new.state

Continues-refl : (r : IntentRecord) → Continues r r
Continues-refl r = record {
  manager = refl;
  key = refl;
  digest = refl;
  launch = refl;
  root = refl;
  trail = stop;
}

Follows-Continues : {a b c : IntentRecord} → Follows a b → Continues b c → Continues a c
Follows-Continues f g = record {
  manager = g.manager ∙ f.manager;
  key = g.key ∙ f.key;
  digest = g.digest ∙ f.digest;
  launch = g.launch ∙ f.launch;
  root = g.root ∙ f.root;
  trail = onward f.edge g.trail;
}

Change-record :
    {old new : Option StoredFile} (r : IntentRecord)
    → Change old new
    → old ≡ some (stored r)
    → (new ≡ some (stored r)) ⊎ ((r' : IntentRecord) × (new ≡ some (stored r')) × Follows r r')
Change-record r (same e) here = inl (e ∙ here)
Change-record r (created x e _ _) here = cc
Change-record r (moved x x' e e' f) here = inr (x', e', subst (λ y. Follows y x') (cc) f)

-- A record that is on disk stays on disk through any history: the binding, the Task digest, the
-- launch identity and the project root never change, and the state only moves along the lifecycle.
pub run-Continues :
    (p : Platform) (ops : List (Io × Op)) (s : Store) (m k : String) (r : IntentRecord)
    → file_at m k s ≡ some (stored r)
    → (r' : IntentRecord) × (file_at m k (run p ops s) ≡ some (stored r')) × Continues r r'
unfolding run
run-Continues p [] s m k r here = (r, here, Continues-refl r)
run-Continues p ((io, op) ∷ ops) s m k r here =
    elim (Change-record r (step-Change p io op s m k) here) [
      | inl e ↦ run-Continues p ops (step p io op s) m k r e
      | inr (x, e, f) ↦
          let (r', e', g) = run-Continues p ops (step p io op s) m k x e in
          (r', e', Follows-Continues f g)
    ]
