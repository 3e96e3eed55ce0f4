-- ===== src/Intents/Lifecycle.antt =====
-- What each operation of src/daemon/intents.ts may do to a record file.
use herdr_tools.Base.{
  ◌≡◌, refl, Bool, true, ◌&&◌, String, ◌==◌, List, Option, none, some, arith, eq_iff, Bool-cases,
  inl, inr, any, and-eq-true,
}
use herdr_tools.Intents.Record.{
  IntentState, recorded, effecting, completed, failed, unresolved, IntentRecord, Platform,
}
use herdr_tools.Intents.Files.{
  Store, Io, Result, ok, err, StoredFile, stored, untrusted, unparsed, file_at, put_file, read_file,
  read_intent, WriteOutcome, write_intent, committed, not_committed, not_synced,
}
use herdr_tools.Intents.{transition, transition_section, same_state}

-- The edges of the lifecycle that a write may follow.
pub data Edge : IntentState → IntentState → Type 0 where
  start : Edge recorded effecting
  extend : Edge effecting effecting
  finish : Edge effecting completed
  refuse : Edge recorded failed
  give_up : Edge effecting failed
  doubt_early : Edge recorded unresolved
  doubt : Edge effecting unresolved
  reconsider : Edge unresolved unresolved
  settle : Edge unresolved completed

-- A record written over another: the binding and the launch identity stay, the state follows an edge.
pub record Follows (old new : IntentRecord) : Type 0 where
  pub manager : new.manager_session_key ≡ old.manager_session_key
  pub key : new.idempotency_key ≡ old.idempotency_key
  pub digest : new.task_digest ≡ old.task_digest
  pub launch : new.launch_id ≡ old.launch_id
  pub root : new.project_root ≡ old.project_root
  pub recorded_at : new.recorded_at ≡ old.recorded_at
  pub edge : Edge old.state new.state

-- What an operation did to the file of one binding: nothing, a fresh record where there was none, or
-- a record over one that it follows.
pub data Change (old new : Option StoredFile) : Type 0 where
  same : new ≡ old → Change old new
  created :
      (r : IntentRecord) → old ≡ none → new ≡ some (stored r) → r.state ≡ recorded → Change old new
  moved :
      (r r' : IntentRecord)
      → old ≡ some (stored r)
      → new ≡ some (stored r')
      → Follows r r'
      → Change old new

pub read_file-some :
    (p : Platform) (m k : String) (f : Option StoredFile) {r : IntentRecord}
    → read_file p m k f ≡ ok (some r)
    → (f ≡ some (stored r)) × (r.idempotency_key ≡ k) × (r.manager_session_key ≡ m)
unfolding read_file
read_file-some p m k none h = ground arith
read_file-some p m k (some untrusted) h = ground arith
read_file-some p m k (some unparsed) h = ground arith
read_file-some p m k (some (stored x)) h =
    ground (arith, eq_iff x.idempotency_key k, eq_iff x.manager_session_key m)

pub read_intent-some :
    (p : Platform) (m k : String) (s : Store) {r : IntentRecord}
    → read_intent p m k s ≡ ok (some r)
    → (file_at m k s ≡ some (stored r)) × (r.idempotency_key ≡ k) × (r.manager_session_key ≡ m)
unfolding read_intent
read_intent-some p m k s h = read_file-some p m k (file_at m k s) h

read_file-none :
    (p : Platform) (m k : String) (f : Option StoredFile) → read_file p m k f ≡ ok none → f ≡ none
unfolding read_file
read_file-none p m k none h = refl
read_file-none p m k (some untrusted) h = cc
read_file-none p m k (some unparsed) h = cc
read_file-none p m k (some (stored x)) h = ground arith

pub read_intent-none :
    (p : Platform) (m k : String) (s : Store) → read_intent p m k s ≡ ok none → file_at m k s ≡ none
unfolding read_intent
read_intent-none p m k s h = read_file-none p m k (file_at m k s) h

-- A write leaves the store, or puts the record in its place.
pub write_intent_cases {ℓ} :
    (P : Store → Type ℓ) (io : Io) (m : String) (r : IntentRecord) (s : Store)
    → P s
    → P (put_file m r.idempotency_key (stored r) s)
    → P (write_intent io m r s).1
unfolding write_intent
write_intent_cases P io m r s old new = go (io.write r) refl
  where
    go : (w : WriteOutcome) → io.write r ≡ w → P (write_intent io m r s).1
    go committed e = rw (e, write_intent) new
    go not_committed e = rw (e, write_intent) old
    go not_synced e = rw (e, write_intent) new

section_cases {ℓ} :
    (P : Store → Type ℓ) (p : Platform) (io : Io) (intent : IntentRecord)
    (expect : List IntentState) (mutate : IntentRecord → IntentRecord) (s : Store)
    (found : Result (Option IntentRecord))
    → P s
    → ((r : IntentRecord)
        → found ≡ ok (some r)
        → any (same_state r.state) expect ≡ true
        → P (put_file intent.manager_session_key (mutate r).idempotency_key (stored (mutate r)) s))
    → P (transition_section io intent expect mutate s found).1
unfolding transition_section
section_cases P p io intent expect mutate s (err e) old new = old
section_cases P p io intent expect mutate s (ok none) old new = old
section_cases P p io intent expect mutate s (ok (some r)) old new =
    let test = current_launch r && any (same_state r.state) expect in
    elim (Bool-cases test) [
      | inl e ↦ rw e (
          write_intent_cases P io intent.manager_session_key (mutate r) s old
            (new r refl (and-eq-true _ _ e).1))
      | inr e ↦ rw e old
    ]
  where
    current_launch : IntentRecord → Bool
    current_launch x = x.launch_id == intent.launch_id

-- A transition leaves the store, or writes the change over the record that it expects.
pub transition_cases {ℓ} :
    (P : Store → Type ℓ) (p : Platform) (io : Io) (intent : IntentRecord)
    (expect : List IntentState) (mutate : IntentRecord → IntentRecord) (s : Store)
    → P s
    → ((r : IntentRecord)
        → file_at intent.manager_session_key intent.idempotency_key s ≡ some (stored r)
        → r.idempotency_key ≡ intent.idempotency_key
        → any (same_state r.state) expect ≡ true
        → P (put_file intent.manager_session_key (mutate r).idempotency_key (stored (mutate r)) s))
    → P (transition p io intent expect mutate s).1
unfolding transition
transition_cases P p io intent expect mutate s old new = ground (
  arith,
  section_cases P p io intent expect mutate s _ old
      (λ (r : IntentRecord) (e : read_intent p m k s ≡ ok (some r)).
        let (here, key, manager) = read_intent-some p m k s e in new r here key),
)
  where
    m : String
    m = intent.manager_session_key

    k : String
    k = intent.idempotency_key

pub ruleset edges = (start, extend, finish, refuse, give_up, doubt_early, doubt, reconsider, settle)
