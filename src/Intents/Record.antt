-- ===== src/Intents/Record.antt =====
-- src/daemon/intents.ts: the intent record, its validation, and the merge of children.
use herdr_tools.Base.{
  ℕ, Bool, true, false, not, ◌&&◌, ◌||◌, String, ◌==◌, List, [], ◌∷◌, Option, none, some, all,
  length, eqb, leb, codes, utf16_length, is_identifier, is_sha256_hex, is_digit, is_lower, is_upper,
  if◌then◌else◌,
}

pub data IntentState : Type 0 where
  recorded effecting completed failed unresolved : IntentState

-- The launcher's effect certainty.
pub data Certainty : Type 0 where
  absent partial unknown confirmed : Certainty

pub data Disposition : Type 0 where
  bound identity_lost ambiguous : Disposition

pub data Resolution : Type 0 where
  interrupted effect_uncertain : Resolution

pub data IntentError : Type 0 where
  unavailable malformed request_invalid state_conflict key_conflict : IntentError

pub record Session : Type 0 where
  pub source : String
  pub agent : String
  pub kind : String
  pub value : String

pub record Evidence : Type 0 where
  pub at : String
  pub reason : String
  pub terminal_id : Option String
  pub session : Option Session

pub record Child : Type 0 where
  pub name : String
  pub run_id : Option String
  pub disposition : Option Disposition
  pub evidence : Option Evidence

pub record IntentRecord : Type 0 where
  pub manager_session_key : String
  pub idempotency_key : String
  pub task_digest : String
  pub launch_id : String
  pub project_root : String
  pub state : IntentState
  pub recorded_at : String
  pub updated_at : String
  pub children : List Child
  pub effect_certainty : Option Certainty
  pub failure_code : Option String
  pub failure_phase : Option String
  pub resolution : Option Resolution
  pub reconciled : Bool

pub record LaunchTask : Type 0 where
  pub objective : String
  pub scope : String
  pub done_when : List String
  pub constraints : Option (List String)
  pub tier : Option String
  pub recovery_of : Option String
  pub label : Option String
  pub cwd : Option String
  pub operating_point : Option String
  pub retention : Option String

-- What the store takes from outside: `Date.parse` being finite, the schema check of a Task, and the
-- digest of its canonical form.
pub record Platform : Type 0 where
  pub date_parses : String → Bool
  pub valid_task : LaunchTask → Bool
  pub task_digest : LaunchTask → String

-- `/^[A-Za-z0-9._:-]+$/`, at most 128 units.
abbrev is_key_code : ℕ → Bool
is_key_code c =
    is_upper c || (is_lower c || (is_digit c || (eqb c 46 || (eqb c 95 || (eqb c 58 || eqb c 45)))))

unfoldable pub is_idempotency_key : String → Bool
unfolding utf16_length
is_idempotency_key s =
    leb (utf16_length s) 128 && (not (eqb (length (codes s)) 0) && all is_key_code (codes s))

-- `/^[A-Z][A-Z0-9_]{0,63}$/` and its lower-case twin.
abbrev starts_then : (ℕ → Bool) → List ℕ → Bool
starts_then first [] = false
starts_then first (c ∷ cs) =
    first c && (all (λ d. first d || (is_digit d || eqb d 95)) cs && leb (length cs) 63)

unfoldable pub is_failure_code : String → Bool
is_failure_code s = starts_then is_upper (codes s)

unfoldable pub is_failure_phase : String → Bool
is_failure_phase s = starts_then is_lower (codes s)

unfoldable pub is_session_key : String → Bool
unfolding is_sha256_hex
is_session_key s = is_sha256_hex s

-- A check of a field that may be missing.
abbrev pub optionally {ℓ} : {A : Type ℓ} → (A → Bool) → Option A → Bool
optionally p none = true
optionally p (some a) = p a

abbrev session_part : String → Bool
session_part s = is_identifier s && leb (utf16_length s) 4096

unfoldable pub is_session : Session → Bool
unfolding is_identifier utf16_length
is_session x =
    session_part x.source && (session_part x.agent && (session_part x.kind && session_part x.value))

-- `/^[a-z_]{1,64}$/`.
abbrev is_reason : List ℕ → Bool
is_reason cs =
    not (eqb (length cs) 0) && (leb (length cs) 64 && all (λ c. is_lower c || eqb c 95) cs)

unfoldable pub is_evidence : Platform → Evidence → Bool
unfolding is_identifier utf16_length is_session
is_evidence p e =
    leb (utf16_length e.at) 32
    && (p.date_parses e.at
        && (is_reason (codes e.reason)
            && (optionally (λ t. is_identifier t && leb (utf16_length t) 256) e.terminal_id
                && optionally is_session e.session)))

unfoldable pub is_intent_child : Platform → Child → Bool
unfolding is_identifier is_evidence
is_intent_child p c =
    is_identifier c.name
    && (optionally is_identifier c.run_id && optionally (is_evidence p) c.evidence)

unfoldable pub children_valid : Platform → List Child → Bool
unfolding is_intent_child
children_valid p cs = all (is_intent_child p) cs

-- `isIntentRecord`, on a value whose fields have their types.
unfoldable pub is_intent_record : Platform → IntentRecord → Bool
unfolding is_sha256_hex is_idempotency_key is_identifier children_valid is_failure_code
    is_failure_phase
is_intent_record p r =
    is_sha256_hex r.manager_session_key
    && (is_idempotency_key r.idempotency_key
        && (is_sha256_hex r.task_digest
            && (is_identifier r.launch_id
                && (is_identifier r.project_root
                    && (is_identifier r.recorded_at
                        && (is_identifier r.updated_at
                            && (children_valid p r.children
                                && (optionally is_failure_code r.failure_code
                                    && optionally is_failure_phase r.failure_phase))))))))

-- A later value fills or replaces the earlier one.
abbrev pub or_keep {ℓ} : {A : Type ℓ} → Option A → Option A → Option A
or_keep none old = old
or_keep (some new) old = some new

unfoldable pub fill : Child → Child → Child
fill old new = record {
  name = old.name;
  run_id = or_keep new.run_id old.run_id;
  disposition = or_keep new.disposition old.disposition;
  evidence = or_keep new.evidence old.evidence;
}

-- One round of `mergeChildren`: the first entry of that name is filled, or the child goes last.
unfoldable pub merge_child : List Child → Child → List Child
unfolding fill
merge_child [] new = new ∷ []
merge_child (c ∷ cs) new = if c.name == new.name then fill c new ∷ cs else c ∷ merge_child cs new

unfoldable pub merge_children : List Child → List Child → List Child
unfolding merge_child
merge_children current [] = current
merge_children current (c ∷ added) = merge_children (merge_child current c) added

abbrev pub disposed : Child → Bool
disposed c = elim c.disposition [ none ↦ false | some d ↦ true ]

abbrev pub accounted : Option Disposition → Bool
accounted (some bound) = true
accounted (some identity_lost) = true
accounted _ = false

-- Every recorded child is live-bound or provably absent, and there is one.
unfoldable pub is_settled : List Child → Bool
is_settled cs = not (eqb (length cs) 0) && all (λ c. accounted c.disposition) cs
