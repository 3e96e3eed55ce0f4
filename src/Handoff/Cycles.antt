-- ===== src/Handoff/Cycles.antt =====
-- A work cycle of a run in src/handoff-gate.ts, once an artifact was accepted before it.
use herdr_tools.Base.{
  suc, ◌≡◌, ◌≢◌, refl, sym, ap, subst, ◌∙◌, Bool, true, false, ◌&&◌, String, eq_iff, List, [], ◌∷◌,
  Option, none, some, All, arith, if◌then◌else◌, if_rule,
}
use herdr_tools.Handoff.{
  Artifact, Sidecar, Run, Slices, ArtifactRead, found, handoff_error, read_thrown, HandoffCode,
  artifact_missing, artifact_invalid, artifact_oversized, artifact_untrusted, other_code, Update,
  committed, refused, unsynced, thrown, Validation, accepted, is_accepted, validation_failure,
  remembered, mirror, accept, validated, validate, begin_cycle, is_current,
}

-- What one look of a host at the artifact meets.
pub record Look : Type 0 where
  pub read : ArtifactRead
  pub history : Option String
  pub update : Update

abbrev pub add_verdict : Option Validation → List Validation → List Validation
add_verdict none vs = vs
add_verdict (some v) vs = v ∷ vs

unfoldable pub looks : Slices → List Look → Run → Sidecar → List Validation × Run × Sidecar
unfolding validate
looks t [] r s = ([], r, s)
looks t (l ∷ ls) r s =
    let (o, r', s') = validate t l.read l.history l.update r s in
    let (vs, last, side) = looks t ls r' s' in (add_verdict o vs, last, side)

-- A look that reads the content that was accepted, or no artifact, or whose store refuses or throws.
unfoldable pub IsOld : String → ArtifactRead → Update → Type 0
IsOld sha (handoff_error code reason) u = Unit
IsOld sha read_thrown u = Unit
IsOld sha (found a) refused = Unit
IsOld sha (found a) thrown = Unit
IsOld sha (found a) committed = a.sha256 ≡ sha
IsOld sha (found a) unsynced = a.sha256 ≡ sha

abbrev pub NotAccepted : Validation → Type 0
NotAccepted v = is_accepted v.state ≡ false

abbrev AllNot : Option Validation → Type 0
AllNot o = All NotAccepted (add_verdict o [])

failure_not_accepted : (c : HandoffCode) → is_accepted (validation_failure c) ≡ false
unfolding validation_failure
failure_not_accepted artifact_missing = refl
failure_not_accepted artifact_invalid = refl
failure_not_accepted artifact_oversized = refl
failure_not_accepted artifact_untrusted = refl
failure_not_accepted other_code = refl

current_old :
    (a : Artifact) (s : Sidecar) (sha : String)
    → s.sha256 ≡ some sha
    → a.sha256 ≡ sha
    → is_current a s ≡ true
current_old a s sha h e = ground (arith, eq_iff sha a.sha256)

if_true {ℓ} : {A : Type ℓ} (b : Bool) (x y : A) → b ≡ true → (if b then x else y) ≡ x
if_true b x y h = rw h refl

-- What a look that sees nothing new leaves.
record IsIdle (s : Sidecar) (r : Option Validation × Run × Sidecar) : Type 0 where
  verdicts : AllNot r.0
  still_open : r.1.cycle_open ≡ true
  side : r.2 ≡ s

unchanged-IsIdle :
    (s : Sidecar) (v : Validation) (r : Run)
    → r.cycle_open ≡ true
    → NotAccepted v
    → IsIdle s (some v, remembered v r, s)
unfolding remembered
unchanged-IsIdle s v r c n = record { verdicts = (n, tt); still_open = c; side = refl }

same-IsIdle :
    (a : Artifact) (current : Bool) (r : Run) (s other : Sidecar)
    → current ≡ true
    → r.cycle_open ≡ true
    → IsIdle s (validated a (current && r.cycle_open) r (if current then s else other))
unfolding validated mirror remembered
same-IsIdle a false r s other e c = absurd (ground arith)
same-IsIdle a true r s other e c =
    if_rule (IsIdle s) r.cycle_open _ _
      (λ yes. record { verdicts = (refl, tt); still_open = c; side = refl })
      (λ no. absurd (ground arith))

look-IsIdle :
    (t : Slices) (read : ArtifactRead) (history : Option String) (u : Update) (r : Run)
    (s : Sidecar) (sha : String)
    → r.cycle_open ≡ true
    → s.sha256 ≡ some sha
    → IsOld sha read u
    → IsIdle s (validate t read history u r s)
unfolding validate IsOld remembered
look-IsIdle t read_thrown history u r s sha c h old = record {
  verdicts = tt;
  still_open = c;
  side = refl;
}
look-IsIdle t (handoff_error code reason) history u r s sha c h old =
    unchanged-IsIdle s _ r c (failure_not_accepted code)
look-IsIdle t (found a) history thrown r s sha c h old = record {
  verdicts = tt;
  still_open = c;
  side = refl;
}
look-IsIdle t (found a) history refused r s sha c h old = unchanged-IsIdle s _ r c refl
look-IsIdle t (found a) history unsynced r s sha c h old = record {
  verdicts = (refl, tt);
  still_open = c;
  side = if_true (is_current a s) s (accept a history s) (current_old a s sha h old);
}
look-IsIdle t (found a) history committed r s sha c h old =
    same-IsIdle a (is_current a s) r s (accept a history s) (current_old a s sha h old) c

add_verdict-All :
    (o : Option Validation) (vs : List Validation)
    → AllNot o
    → All NotAccepted vs
    → All NotAccepted (add_verdict o vs)
add_verdict-All none vs n m = m
add_verdict-All (some v) vs (n, u) m = (n, m)

looks-IsIdle :
    (t : Slices) (ls : List Look) (r : Run) (s : Sidecar) (sha : String)
    → r.cycle_open ≡ true
    → s.sha256 ≡ some sha
    → All (λ (l : Look). IsOld sha l.read l.update) ls
    → All NotAccepted (looks t ls r s).0
      × ((looks t ls r s).1.cycle_open ≡ true)
      × ((looks t ls r s).2 ≡ s)
unfolding looks
looks-IsIdle t [] r s sha c h old = (tt, c, refl)
looks-IsIdle t (l ∷ ls) r s sha c h (p, old) =
    let first = look-IsIdle t l.read l.history l.update r s sha c h p in
    let (o, r', s') = validate t l.read l.history l.update r s in
    let (vs, live, side) =
      looks-IsIdle t ls r' s' sha first.still_open (ap (λ (x : Sidecar). x.sha256) first.side ∙ h)
        old in
    (add_verdict-All o _ first.verdicts vs, live, side ∙ first.side)

new_content :
    (a : Artifact) (s : Sidecar) (sha : String)
    → s.sha256 ≡ some sha
    → a.sha256 ≢ sha
    → is_current a s ≡ false
new_content a s sha h n = ground (arith, eq_iff sha a.sha256)

-- A new artifact that is accepted: the verdict, the version, and the end of the cycle.
pub record Accepts (a : Artifact) (s : Sidecar) (r : Option Validation × Run × Sidecar)
    : Type 0 where
  pub verdict : Validation
  pub given : r.0 ≡ some verdict
  pub state : verdict.state ≡ accepted
  pub artifact :
      verdict.artifact
      ≡ some record {
        status = some a.status;
        sha256 = a.sha256;
        bytes = a.bytes;
        version = suc s.version;
      }
  pub closed : r.1.cycle_open ≡ false
  pub stored : r.2.sha256 ≡ some a.sha256

new-Accepts :
    (a : Artifact) (current : Bool) (history : Option String) (r : Run) (s : Sidecar)
    → current ≡ false
    → Accepts a s
        (validated a (current && r.cycle_open) r (if current then s else accept a history s))
unfolding validated mirror remembered accept
new-Accepts a true history r s e = absurd (ground arith)
new-Accepts a false history r s e = record {
  verdict = _;
  given = refl;
  state = refl;
  artifact = refl;
  closed = refl;
  stored = refl;
}

-- In a work cycle that was opened after an artifact was accepted, any looks each of which reads the
-- accepted content again, or reads no artifact, or meets a store that refuses or throws, accept
-- nothing and leave the sidecar as it is; other content that is read and committed after such looks
-- is accepted with the next version, and closes the cycle. A look at other content whose write is
-- not synced is outside the statement.
pub looks-Accepts :
    (t : Slices) (ls : List Look) (a : Artifact) (history : Option String) (r : Run) (s : Sidecar)
    (sha : String)
    → s.sha256 ≡ some sha
    → All (λ (l : Look). IsOld sha l.read l.update) ls
    → a.sha256 ≢ sha
    → All NotAccepted (looks t ls (begin_cycle r) s).0
      × ((looks t ls (begin_cycle r) s).2 ≡ s)
      × Accepts a s (
          validate t
            (found a)
            history
            committed
            (looks t ls (begin_cycle r) s).1
            (looks t ls (begin_cycle r) s).2)
unfolding begin_cycle validate
looks-Accepts t ls a history r s sha h old n =
    let (vs, live, side) = looks-IsIdle t ls (begin_cycle r) s sha refl h old in
    let last = (looks t ls (begin_cycle r) s).1 in
    (
      vs,
      side,
      subst (λ x. Accepts a s (validate t (found a) history committed last x)) (sym side)
          (new-Accepts a (is_current a s) history last s (new_content a s sha h n)),
    )
