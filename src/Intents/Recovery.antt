-- ===== src/Intents/Recovery.antt =====
-- `recoverInterrupted` of src/daemon/intents.ts: what the restart sweep does to each file.
use herdr_tools.Base.{
  ◌≡◌, refl, sym, subst, true, ◌&&◌, ◌∙◌, String, ◌==◌, List, [], ◌∷◌, ◌++◌, Option, none, some,
  arith, eq_iff, Bool-cases, inl, inr, and-eq-true, All,
}
use herdr_tools.Intents.Record.{effecting, IntentRecord, Platform}
use herdr_tools.Intents.Files.{
  Store, Io, Result, ok, err, StoredFile, stored, file_at, put_file, read_intent, write_intent,
  file_at-put_file, read_all, list_dir, add_read,
}
use herdr_tools.Intents.Lifecycle.{write_intent_cases, read_intent-some}
use herdr_tools.Intents.{
  same_state, to_interrupted, recover_records, recover_section, recover_manager, recover_managers,
  recover_interrupted, after_manager,
}

-- A file after the sweep: untouched, or an effecting record marked as interrupted.
pub data Swept (io : Io) (old new : Option StoredFile) : Type 0 where
  untouched : new ≡ old → Swept io old new
  marked :
      (r : IntentRecord)
      → old ≡ some (stored r)
      → same_state r.state effecting ≡ true
      → new ≡ some (stored (to_interrupted io r))
      → Swept io old new

-- What the sweep has written is no longer effecting, so sweeps compose.
Swept-trans : {io : Io} {a b c : Option StoredFile} → Swept io a b → Swept io b c → Swept io a c
Swept-trans (untouched e) (untouched f) = untouched (f ∙ e)
Swept-trans (untouched e) (marked r h st f) = marked r (sym e ∙ h) st f
Swept-trans (marked r h st e) (untouched f) = marked r h st (f ∙ e)
Swept-trans (marked r h st e) (marked x h' st' f) = ground arith

pub record Sweep (io : Io) (s t : Store) : Type 0 where
  pub at : (m k : String) → Swept io (file_at m k s) (file_at m k t)

Sweep-refl : (io : Io) (s : Store) → Sweep io s s
Sweep-refl io s = record { at = λ m k. untouched refl }

Sweep-trans : {io : Io} {a b c : Store} → Sweep io a b → Sweep io b c → Sweep io a c
Sweep-trans v w = record { at = λ m k. Swept-trans (v.at m k) (w.at m k) }

abbrev Held : String → Store → IntentRecord → Type 0
Held m s r = file_at m r.idempotency_key s ≡ some (stored r)

Sweep-put :
    (io : Io) (m : String) (r : IntentRecord) (s₀ s : Store)
    → Held m s₀ r
    → same_state r.state effecting ≡ true
    → Sweep io s₀ s
    → Sweep io s₀ (put_file m r.idempotency_key (stored (to_interrupted io r)) s)
Sweep-put io m r s₀ s held st w = record {
  at = λ m' k'. elim (Bool-cases (m == m' && r.idempotency_key == k')) [
    | inl e ↦
        let (em, ek) = and-eq-true _ _ e in
        marked r
          (subst (λ x. file_at x k' s₀ ≡ some (stored r)) ((eq_iff m m').0 em)
            (subst (λ x. file_at m x s₀ ≡ some (stored r)) ((eq_iff _ k').0 ek) held))
          st (rw (file_at-put_file m r.idempotency_key m' k' (stored (to_interrupted io r)) s, e))
    | inr e ↦
        subst (Swept io (file_at m' k' s₀))
          (sym
            (rw (file_at-put_file m r.idempotency_key m' k' (stored (to_interrupted io r)) s, e)))
          (w.at m' k')
  ];
}

-- What every mark keeps, the loop keeps.
abbrev Keeps {ℓ} : (Store → Type ℓ) → Io → String → IntentRecord → Type ℓ
Keeps P io m r =
    (t : Store)
    → same_state r.state effecting ≡ true
    → P t
    → P (put_file m r.idempotency_key (stored (to_interrupted io r)) t)

recover_records_cases {ℓ} :
    (P : Store → Type ℓ) (io : Io) (m : String) (rs done : List IntentRecord) (s : Store)
    → All (Keeps P io m) rs
    → P s
    → P (recover_records io m rs done s).1
unfolding recover_records
recover_records_cases P io m [] done s h w = w
recover_records_cases P io m (r ∷ rs) done s (keeps, h) w = ground (
  arith,
  recover_records_cases P io m rs done s h w,
  λ (st : same_state r.state effecting ≡ true).
      recover_records_cases P io m rs (done ++ to_interrupted io r ∷ []) _ h (write st),
  λ (st : same_state r.state effecting ≡ true). write st,
)
  where
    write : same_state r.state effecting ≡ true → P (write_intent io m (to_interrupted io r) s).1
    write st = write_intent_cases P io m (to_interrupted io r) s w (keeps s st w)

add_read-Held :
    (m : String) (s : Store) (found : Result (Option IntentRecord))
    (rest : Result (List IntentRecord)) (rs : List IntentRecord)
    → ((r : IntentRecord) → found ≡ ok (some r) → Held m s r)
    → ((xs : List IntentRecord) → rest ≡ ok xs → All (Held m s) xs)
    → add_read found rest ≡ ok rs
    → All (Held m s) rs
add_read-Held m s (err e) rest rs one more g = cc
add_read-Held m s (ok none) (err e) rs one more g = cc
add_read-Held m s (ok none) (ok xs) rs one more g = more rs g
add_read-Held m s (ok (some r)) (err e) rs one more g = cc
add_read-Held m s (ok (some r)) (ok xs) [] one more g = cc
add_read-Held m s (ok (some r)) (ok xs) (y ∷ ys) one more g = (one y (cc), more ys (cc))

read_all-Held :
    (p : Platform) (m : String) (ks : List String) (s : Store) (rs : List IntentRecord)
    → read_all p m ks s ≡ ok rs
    → All (Held m s) rs
unfolding read_all
read_all-Held p m [] s [] h = tt
read_all-Held p m [] s (r ∷ rs) h = cc
read_all-Held p m (k ∷ ks) s rs h =
    add_read-Held m s (read_intent p m k s) (read_all p m ks s) rs
      (λ r e.
        let (here, key, manager) = read_intent-some p m k s e in
        subst (λ x. file_at m x s ≡ some (stored r)) (sym key) here)
      (λ xs e. read_all-Held p m ks s xs e) h

All-Keeps :
    (io : Io) (m : String) (s : Store) (rs : List IntentRecord)
    → All (Held m s) rs
    → All (Keeps (Sweep io s) io m) rs
All-Keeps io m s [] h = tt
All-Keeps io m s (r ∷ rs) (held, h) =
    (λ t st w. Sweep-put io m r s t held st w, All-Keeps io m s rs h)

recover_section-Sweep :
    (p : Platform) (io : Io) (m : String) (done : List IntentRecord) (s : Store)
    (listed : Result (List IntentRecord))
    → list_dir p m s ≡ listed
    → Sweep io s (recover_section io m done s listed).1
unfolding recover_section list_dir
recover_section-Sweep p io m done s (err e) h = Sweep-refl io s
recover_section-Sweep p io m done s (ok rs) h =
    recover_records_cases (Sweep io s) io m rs done s
      (All-Keeps io m s rs (read_all-Held p m _ s rs h)) (Sweep-refl io s)

recover_manager_cases {ℓ} :
    (P : Store → Type ℓ) (p : Platform) (io : Io) (m : String) (done : List IntentRecord)
    (s : Store)
    → P s
    → P (recover_section io m done s (list_dir p m s)).1
    → P (recover_manager p io m done s).1
unfolding recover_manager
recover_manager_cases P p io m done s old new = ground arith

recover_manager-Sweep :
    (p : Platform) (io : Io) (m : String) (done : List IntentRecord) (s : Store)
    → Sweep io s (recover_manager p io m done s).1
recover_manager-Sweep p io m done s =
    recover_manager_cases (Sweep io s) p io m done s (Sweep-refl io s)
      (recover_section-Sweep p io m done s (list_dir p m s) refl)

after_manager-Sweep :
    (io : Io) (s : Store) (next : List IntentRecord → Store → Result (List IntentRecord) × Store)
    (last : Result (List IntentRecord) × Store)
    → ((found : List IntentRecord) (t : Store) → Sweep io t (next found t).1)
    → Sweep io s last.1
    → Sweep io s (after_manager next last).1
unfolding after_manager
after_manager-Sweep io s next (ok found, t) go w = Sweep-trans w (go found t)
after_manager-Sweep io s next (err e, t) go w = w

recover_managers-Sweep :
    (p : Platform) (io : Io) (ms : List String) (done : List IntentRecord) (s : Store)
    → Sweep io s (recover_managers p io ms done s).1
unfolding recover_managers
recover_managers-Sweep p io [] done s = Sweep-refl io s
recover_managers-Sweep p io (m ∷ ms) done s =
    after_manager-Sweep io s (recover_managers p io ms) (recover_manager p io m done s)
      (λ found t. recover_managers-Sweep p io ms found t) (recover_manager-Sweep p io m done s)

-- The restart sweep leaves each file as it was, or marks an effecting record as interrupted.
pub recover_interrupted-Sweep :
    (p : Platform) (io : Io) (key : Option String) (s : Store)
    → Sweep io s (recover_interrupted p io key s).1
unfolding recover_interrupted
recover_interrupted-Sweep p io none s = elim (Bool-cases io.trusted) [
  | inl e ↦ simp e (recover_managers-Sweep p io _ [] s)
  | inr e ↦ simp e (Sweep-refl io s)
]
recover_interrupted-Sweep p io (some m) s = recover_managers-Sweep p io (m ∷ []) [] s
