-- ===== src/Intents/Files.antt =====
-- src/daemon/intents.ts: the record files, one directory for each manager session, and what reading
-- and writing them may answer.
use herdr_tools.Base.{
  ◌≡◌, refl, subst, Bool, ◌&&◌, String, ◌==◌, List, [], ◌∷◌, Option, none, some, arith, get_or,
  eq_iff, eq_refl, if◌then◌else◌, Bool-cases, inl, inr, text_before, file_before,
}
use herdr_tools.Base.Dict.{Dict, get, put, names, get-put}
use herdr_tools.Base.Sort.{sort}
use herdr_tools.Intents.Record.{
  IntentRecord, IntentError, unavailable, malformed, Platform, is_intent_record, is_session_key,
}

-- What stands at a record's path: a file that is not the owner's plain file, one that does not parse
-- to an object, or a parsed record.
pub data StoredFile : Type 0 where
  untrusted unparsed : StoredFile
  stored : IntentRecord → StoredFile

-- `intents/<managerSessionKey>/<key>.json`.
abbrev pub Store : Type 0
Store = Dict (Dict StoredFile)

pub data Result (A : Type 0) : Type 0 where
  ok : A → Result A
  err : IntentError → Result A

abbrev pub map_ok : {A B : Type 0} → (A → B) → Result A → Result B
map_ok f (ok a) = ok (f a)
map_ok f (err e) = err e

-- How far a write came before a file-system fault: not to the rename, or to the directory sync.
pub data WriteOutcome : Type 0 where
  committed not_committed not_synced : WriteOutcome

-- What the environment answers during one operation: the namespace and its directories are trusted,
-- the flock is granted, the clock at each reading, a random identifier, and the disk.
pub record Io : Type 0 where
  pub trusted : Bool
  pub locked : Bool
  pub now : String
  pub later : String
  pub minted : String
  pub write : IntentRecord → WriteOutcome

unfoldable pub in_dir : String → Option (Dict StoredFile) → Option StoredFile
in_dir k none = none
in_dir k (some d) = get k d

unfoldable pub file_at : String → String → Store → Option StoredFile
unfolding in_dir
file_at m k s = in_dir k (get m s)

unfoldable pub put_file : String → String → StoredFile → Store → Store
put_file m k f s = put m (put k f (get_or (get m s) [])) s

-- `managerDir(key, true)`: an existing directory is left as it is.
unfoldable pub ensure_dir : String → Store → Store
ensure_dir m s = elim (get m s) [ none ↦ put m [] s | some d ↦ s ]

unfoldable pub read_file :
    Platform → String → String → Option StoredFile → Result (Option IntentRecord)
read_file p m k none = ok none
read_file p m k (some untrusted) = err unavailable
read_file p m k (some unparsed) = err malformed
read_file p m k (some (stored r)) =
    if is_intent_record p r && (r.idempotency_key == k && r.manager_session_key == m)
    then ok (some r)
    else err malformed

unfoldable pub read_intent : Platform → String → String → Store → Result (Option IntentRecord)
unfolding read_file file_at
read_intent p m k s = read_file p m k (file_at m k s)

-- `writeIntent`: stage, rename, sync the directory.
unfoldable pub write_intent : Io → String → IntentRecord → Store → Result (Unit {0}) × Store
unfolding put_file
write_intent io m r s = elim (io.write r) [
  | committed ↦ (ok tt, put_file m r.idempotency_key (stored r) s)
  | not_committed ↦ (err unavailable, s)
  | not_synced ↦ (err unavailable, put_file m r.idempotency_key (stored r) s)
]

-- `listDir`, over the sorted file names.
abbrev pub add_found : Option IntentRecord → List IntentRecord → List IntentRecord
add_found none rest = rest
add_found (some r) rest = r ∷ rest

abbrev pub add_read :
    Result (Option IntentRecord) → Result (List IntentRecord) → Result (List IntentRecord)
add_read (err e) rest = err e
add_read (ok found) rest = map_ok (add_found found) rest

unfoldable pub read_all : Platform → String → List String → Store → Result (List IntentRecord)
unfolding read_intent
read_all p m [] s = ok []
read_all p m (k ∷ ks) s = add_read (read_intent p m k s) (read_all p m ks s)

unfoldable pub list_dir : Platform → String → Store → Result (List IntentRecord)
unfolding read_all sort names file_before
list_dir p m s = read_all p m (sort file_before (names (get_or (get m s) []))) s

-- `listManagerKeys`: the directories whose name is a session key.
unfoldable pub session_keys : List String → List String
unfolding is_session_key
session_keys [] = []
session_keys (m ∷ ms) = let rest = session_keys ms in if is_session_key m then m ∷ rest else rest

unfoldable pub list_managers : Store → List String
unfolding session_keys sort names text_before
list_managers s = session_keys (sort text_before (names s))

get-empty : (k : String) → get {V = StoredFile} k [] ≡ none
unfolding get
get-empty k = refl

in_dir-get_or : (k : String) (o : Option (Dict StoredFile)) → get k (get_or o []) ≡ in_dir k o
unfolding in_dir
in_dir-get_or k none = get-empty k
in_dir-get_or k (some d) = refl

pub file_at-put_file :
    (m k m' k' : String) (f : StoredFile) (s : Store)
    → file_at m' k' (put_file m k f s) ≡ (if m == m' && k == k' then some f else file_at m' k' s)
unfolding file_at put_file
file_at-put_file m k m' k' f s = elim (Bool-cases (m == m')) [
  | inl e ↦
      subst
        (λ x.
          file_at x k' (put_file m k f s) ≡ (if m == x && k == k' then some f else file_at x k' s))
        ((eq_iff m m').0 e)
        (rw (get-put m m (put k f (get_or (get m s) [])) s, eq_refl m)
          (rw get-put (rw in_dir-get_or)))
  | inr e ↦ rw (get-put m m' (put k f (get_or (get m s) [])) s, e)
]

pub file_at-ensure_dir :
    (m m' k' : String) (s : Store) → file_at m' k' (ensure_dir m s) ≡ file_at m' k' s
unfolding file_at ensure_dir
file_at-ensure_dir m m' k' s = ground (arith, get-put m m' [] s, eq_iff m m', get-empty k')
