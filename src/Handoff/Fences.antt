-- ===== src/Handoff/Fences.antt =====
-- The repair fences of src/handoff-gate.ts over any history of the sidecar of a run: each act is of any
-- host, with any view of the run and any answer of the store.
use mathlib.Core.Option.{some_inj}
use herdr_tools.Base.{
  ℕ, ◌+◌, ◌≤◌, ◌<◌, ◌≡◌, refl, sym, ap, subst, Bool, false, String, List, [], ◌∷◌, Option, none,
  some, length, leb, eqb, arith, if_rule, if◌then◌else◌, ◌&&◌,
}
use herdr_tools.Handoff.{
  Artifact, Sidecar, Run, BoundIdentity, Watermark, Fence, Slices, ArtifactRead, found,
  handoff_error, read_thrown, Update, committed, refused, unsynced, thrown, Lifecycle, After,
  Validation, accept, validated, validate, fenced, updated, begin_repair, record_outcome,
  mark_cycle, bind, max_repair_attempts, is_current, is_fenced, fence_of,
}

pub data Act : Type 0 where
  binds : String → String → BoundIdentity → Option Watermark → Update → Act
  validates : Slices → ArtifactRead → Option String → Update → Run → Act
  repairs : String → Update → Run → Act
  records : Slices → Lifecycle → Option String → Update → Run → Act
  marks : String → Update → Run → Act

abbrev pub issued : Option (Option Fence) → Option Fence
issued none = none
issued (some o) = o

-- The fence that an act gives, and the sidecar after it.
unfoldable pub act : Act → Sidecar → Option Fence × Sidecar
unfolding bind validate begin_repair record_outcome mark_cycle
act (binds id path i w u) s = (none, (bind id path i w u s).1)
act (validates t read history u r) s = (none, (validate t read history u r s).2)
act (repairs token u r) s = let (o, r', s') = begin_repair token u r s in (issued o, s')
act (records t outcome detail u r) s = (none, (record_outcome t outcome detail u r s).2)
act (marks mark u r) s = (none, (mark_cycle mark u r s).2)

abbrev pub add_fence : Option Fence → List Fence → List Fence
add_fence none fs = fs
add_fence (some f) fs = f ∷ fs

unfoldable pub acts : List Act → Sidecar → List Fence × Sidecar
unfolding act
acts [] s = ([], s)
acts (a ∷ as_) s = let (o, s') = act a s in let (fs, last) = acts as_ s' in (add_fence o fs, last)

abbrev pub Above : Option ℕ → ℕ → Type 0
Above none v = Unit
Above (some u) v = u < v

-- The versions of the fences rise, from one given before on.
unfoldable pub Rising : Option ℕ → List Fence → Type 0
Rising o [] = Unit
Rising o (f ∷ fs) = Above o f.version × Rising (some f.version) fs

abbrev Behind : Option ℕ → ℕ → Type 0
Behind none v = Unit
Behind (some u) v = u ≤ v

-- The attempts are bounded, and the fence is not of a version still to come.
pub record IsFencedSoundly (s : Sidecar) : Type 0 where
  pub bounded : s.attempts ≤ max_repair_attempts
  pub behind : Behind (fence_of s.fence) s.version

-- What an act does to the fence and the attempts.
record Fenced (s : Sidecar) (r : Option Fence × Sidecar) : Type 0 where
  sound : IsFencedSoundly r.1
  counted : s.attempts + length (add_fence r.0 []) ≤ r.1.attempts
  above :
      (f : Fence)
      → r.0 ≡ some f
      → Above (fence_of s.fence) f.version × (fence_of r.1.fence ≡ some f.version)
  kept : r.0 ≡ none → (v : ℕ) → Above (fence_of r.1.fence) v → Above (fence_of s.fence) v

Behind-mono : (o : Option ℕ) (u v : ℕ) → u ≤ v → Behind o u → Behind o v
Behind-mono none u v h b = tt
Behind-mono (some x) u v h b = omega arith

-- An act that gives no fence and leaves the fence and the attempts as they are.
quiet-Fenced :
    (s s' : Sidecar)
    → IsFencedSoundly s
    → s'.attempts ≡ s.attempts
    → s'.fence ≡ s.fence
    → s.version ≤ s'.version
    → Fenced s (none, s')
quiet-Fenced s s' k a f v = record {
  sound = record {
    bounded = let b = k.bounded in omega arith;
    behind =
        subst (λ o. Behind (fence_of o) s'.version) (sym f)
          (Behind-mono (fence_of s.fence) s.version s'.version v k.behind);
  };
  counted = omega arith;
  above = λ g h. absurd (ground arith);
  kept = λ h w q. subst (λ o. Above (fence_of o) w) f q;
}

unchanged-Fenced : (s : Sidecar) → IsFencedSoundly s → Fenced s (none, s)
unchanged-Fenced s k = quiet-Fenced s s k refl refl (omega arith)

validated_sidecar : (a : Artifact) (b : Bool) (r : Run) (s : Sidecar) → (validated a b r s).2 ≡ s
unfolding validated
validated_sidecar a b r s =
    if_rule (λ (x : After Validation). x.2 ≡ s) b _ _ (λ c. refl) (λ c. refl)

looked-Fenced :
    (a : Artifact) (history : Option String) (s : Sidecar)
    → IsFencedSoundly s
    → Fenced s (none, if is_current a s then s else accept a history s)
unfolding accept
looked-Fenced a history s k =
    if_rule (λ x. Fenced s (none, x)) (is_current a s) _ _ (λ same. unchanged-Fenced s k)
      (λ new. quiet-Fenced s (accept a history s) k refl refl (omega arith))

validate-Fenced :
    (t : Slices) (read : ArtifactRead) (history : Option String) (u : Update) (r : Run)
    (s : Sidecar)
    → IsFencedSoundly s
    → Fenced s (none, (validate t read history u r s).2)
unfolding validate accept
validate-Fenced t read_thrown history u r s k = unchanged-Fenced s k
validate-Fenced t (handoff_error code reason) history u r s k = unchanged-Fenced s k
validate-Fenced t (found a) history refused r s k = unchanged-Fenced s k
validate-Fenced t (found a) history thrown r s k = unchanged-Fenced s k
validate-Fenced t (found a) history unsynced r s k = looked-Fenced a history s k
validate-Fenced t (found a) history committed r s k =
    let next = if is_current a s then s else accept a history s in
    subst (λ x. Fenced s (none, x))
      (sym (validated_sidecar a (is_current a s && r.cycle_open) r next))
      (looked-Fenced a history s k)

new-Above :
    (o : Option Fence) (v : ℕ)
    → Behind (fence_of o) v
    → elim o [ none ↦ false | some f ↦ eqb f.version v ] ≡ false
    → Above (fence_of o) v
new-Above none v b h = tt
new-Above (some f) v b h = ground arith

fenced-Fenced : (token : String) (s : Sidecar) → IsFencedSoundly s → Fenced s (fenced token s)
unfolding fenced
fenced-Fenced token s k =
    if_rule (Fenced s) (leb max_repair_attempts s.attempts) _ _ (λ spent. unchanged-Fenced s k)
      (λ left.
        if_rule (Fenced s) (is_fenced s) _ _ (λ old. unchanged-Fenced s k)
          (λ unfenced. record {
            sound = record { bounded = let b = k.bounded in ground arith; behind = omega arith };
            counted = omega arith;
            above = λ f h.
                let same : s.version ≡ f.version = ap (λ (x : Fence). x.version) (some_inj.0 h) in
                (
                  subst (Above (fence_of s.fence)) same
                      (new-Above s.fence s.version k.behind unfenced),
                  ap some same,
                );
            kept = λ h. absurd (ground arith);
          }))

Above-trans : (o : Option ℕ) (v w : ℕ) → Above o v → v < w → Above o w
Above-trans none v w h l = tt
Above-trans (some u) v w h l = omega arith

-- A fence that is persisted and not given: the prompt is not sent.
silent-Fenced : (s : Sidecar) (r : Option Fence × Sidecar) → Fenced s r → Fenced s (none, r.1)
silent-Fenced s (none, next) k = k
silent-Fenced s (some f, next) k =
    let (up, now) = k.above f refl in
    record {
      sound = k.sound;
      counted = let c = k.counted in omega arith;
      above = λ g h. absurd (ground arith);
      kept = λ h w q. Above-trans (fence_of s.fence) f.version w up (subst (λ o. Above o w) now q);
    }

begin_repair-Fenced :
    (token : String) (u : Update) (r : Run) (s : Sidecar)
    → IsFencedSoundly s
    → let (o, r', s') = begin_repair token u r s in Fenced s (issued o, s')
unfolding begin_repair updated
begin_repair-Fenced token refused r s k = unchanged-Fenced s k
begin_repair-Fenced token thrown r s k = unchanged-Fenced s k
begin_repair-Fenced token unsynced r s k =
    silent-Fenced s (fenced token s) (fenced-Fenced token s k)
begin_repair-Fenced token committed r s k = fenced-Fenced token s k

updated-Fenced :
    (u : Update) (r : Run) (next s : Sidecar)
    → IsFencedSoundly s
    → Fenced s (none, next)
    → Fenced s (none, (updated u tt r next s).2)
unfolding updated
updated-Fenced committed r next s k f = f
updated-Fenced unsynced r next s k f = f
updated-Fenced refused r next s k f = unchanged-Fenced s k
updated-Fenced thrown r next s k f = unchanged-Fenced s k

bind-Fenced :
    (id path : String) (i : BoundIdentity) (w : Option Watermark) (u : Update) (s : Sidecar)
    → IsFencedSoundly s
    → Fenced s (none, (bind id path i w u s).1)
unfolding bind
bind-Fenced id path i w committed s k = quiet-Fenced s _ k refl refl (omega arith)
bind-Fenced id path i w unsynced s k = quiet-Fenced s _ k refl refl (omega arith)
bind-Fenced id path i w refused s k = unchanged-Fenced s k
bind-Fenced id path i w thrown s k = unchanged-Fenced s k

act-Fenced : (a : Act) (s : Sidecar) → IsFencedSoundly s → Fenced s (act a s)
unfolding act record_outcome mark_cycle
act-Fenced (binds id path i w u) s k = bind-Fenced id path i w u s k
act-Fenced (validates t read history u r) s k = validate-Fenced t read history u r s k
act-Fenced (repairs token u r) s k = begin_repair-Fenced token u r s k
act-Fenced (records t outcome detail u r) s k =
    updated-Fenced u r _ s k (quiet-Fenced s _ k refl refl (omega arith))
act-Fenced (marks mark u r) s k =
    updated-Fenced u r _ s k (quiet-Fenced s _ k refl refl (omega arith))

length-add_fence :
    (o : Option Fence) (fs : List Fence)
    → length (add_fence o fs) ≡ length (add_fence o []) + length fs
length-add_fence none fs = omega arith
length-add_fence (some f) fs = omega arith

Rising-mono :
    (fs : List Fence) (before after : Option ℕ)
    → ((v : ℕ) → Above after v → Above before v)
    → Rising after fs
    → Rising before fs
unfolding Rising
Rising-mono [] before after m r = tt
Rising-mono (f ∷ fs) before after m (up, r) = (m f.version up, r)

Rising-add_fence :
    (o : Option Fence) (fs : List Fence) (before after : Option ℕ)
    → ((f : Fence) → o ≡ some f → Above before f.version × (after ≡ some f.version))
    → (o ≡ none → (v : ℕ) → Above after v → Above before v)
    → Rising after fs
    → Rising before (add_fence o fs)
unfolding Rising
Rising-add_fence none fs before after g k r = Rising-mono fs before after (k refl) r
Rising-add_fence (some f) fs before after g k r =
    let (up, same) = g f refl in (up, subst (λ x. Rising x fs) same r)

-- Over any acts of any hosts on a sidecar whose attempts are within the bound and whose fence is
-- not of a version to come, with any views of the run and any answers of the store: the repair
-- prompts that are fenced rise in their artifact versions, so that no version is prompted for
-- twice, and with the attempts before them they are at most `max_repair_attempts`.
pub acts-Rising :
    (as_ : List Act) (s : Sidecar)
    → IsFencedSoundly s
    → Rising (fence_of s.fence) (acts as_ s).0
      × (s.attempts + length (acts as_ s).0 ≤ max_repair_attempts)
unfolding acts Rising
acts-Rising [] s k = (tt, let b = k.bounded in omega arith)
acts-Rising (a ∷ as_) s k =
    let step = act-Fenced a s k in
    let (o, s') = act a s in
    let (rising, few) = acts-Rising as_ s' step.sound in
    let n = length-add_fence o (acts as_ s').0 in
    let counted = step.counted in
    (
      Rising-add_fence o (acts as_ s').0 (fence_of s.fence) (fence_of s'.fence) step.above step.kept
          rising,
      omega arith,
    )
