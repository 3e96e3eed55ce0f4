-- ===== src/Availability/Log.antt =====
-- src/availability.ts: the file of the cooldown records, the recording of a failure and the
-- availability of a candidate.
use herdr_tools.Base.{
  ℕ, suc, ◌+◌, Bool, true, false, not, ◌&&◌, String, ◌==◌, List, [], ◌∷◌, ◌++◌, Option, none, some,
  any, keep, length, take, ltb, eqb, if◌then◌else◌,
}
use herdr_tools.Supervision.Json.{Json, Fields}
use herdr_tools.Routing.Chains.{
  Quota, Status, unknown_status, known_exhausted, local_capacity_limited, degraded,
}
use herdr_tools.Supervision.Events.{last}
use herdr_tools.Availability.Codes.{FailureClass, quota, transport}
use herdr_tools.Availability.{
  Dates, CooldownRecord, build_record, parse_record, cooldown_expiry_ms, evidence_window_ms,
}
use herdr_tools.Availability.Keys.{RunnerEntry, availability_key_for}
use herdr_tools.Availability.Failures.{Signal, Classified, classify_launch_failure}

-- A text as code points; `JSON.stringify` of an object and `JSON.parse`, where none is its error.
pub record JsonText : Type 0 where
  pub stringify : Fields → List ℕ
  pub parse_json : List ℕ → Option Json

-- What `lstat` says of the record file: no entry, another error, or whether the entry is a regular
-- file of the owner that nobody else can write.
pub data Stat : Type 0 where
  missing stat_failed untrusted trusted : Stat

-- The answers of the system to one append: the directories are there and trusted, the lock is held,
-- the file as `lstat` sees it, the opening, the proof of the opened file, and a failure of the write
-- after some of its characters.
pub record Attempt : Type 0 where
  pub root_absolute : Bool
  pub directory_ready : Bool
  pub lock_held : Bool
  pub stat : Stat
  pub opens : Bool
  pub opened_trusted : Bool
  pub write_stops : Option ℕ

-- The end of `appendLine`, from the opening of the file.
abbrev pub open_and_write : Attempt → List ℕ → List ℕ → Bool × List ℕ
open_and_write a line file =
    if not a.opens
    then (false, file)
    else if not a.opened_trusted
    then (false, file)
    else elim a.write_stops [ some n ↦ (false, file ++ take n line) | none ↦ (true, file ++ line) ]

-- `appendLine`: whether it returns, and the text of the file after it.
unfoldable pub append_line : Attempt → List ℕ → List ℕ → Bool × List ℕ
append_line a line file = elim a.stat [
  | stat_failed ↦ (false, file)
  | untrusted ↦ (false, file)
  | missing ↦ open_and_write a line file
  | trusted ↦ open_and_write a line file
]

-- The append inside the lock.
abbrev pub append_locked : Attempt → List ℕ → List ℕ → Bool × List ℕ
append_locked a line file =
    if not a.directory_ready
    then (false, file)
    else if not a.lock_held
    then (false, file)
    else append_line a line file

abbrev pub recorded : Classified → Bool × List ℕ → Option Classified × List ℕ
recorded c (ok, file) = (if ok then some c else none, file)

-- `recordLaunchFailure`: the class, or none where it throws, and the text of the file after it.
unfoldable pub record_launch_failure :
    Dates
    → JsonText
    → String
    → RunnerEntry
    → Signal
    → ℕ
    → Attempt
    → List ℕ
    → Option Classified × List ℕ
unfolding classify_launch_failure availability_key_for build_record append_line
record_launch_failure d j model runner s now a file =
    if not a.root_absolute
    then (none, file)
    else let c = classify_launch_failure s in
      elim (availability_key_for model runner) [
        | none ↦ (none, file)
        | some k ↦ elim (build_record d k c s now) [
          | none ↦ (none, file)
          | some fields ↦ recorded c (append_locked a (j.stringify fields ++ 10 ∷ []) file)
        ]
      ]

abbrev pub prepend : ℕ → List (List ℕ) → List (List ℕ)
prepend c [] = (c ∷ []) ∷ []
prepend c (l ∷ ls) = (c ∷ l) ∷ ls

-- `text.split("\n")`.
unfoldable pub split_lines : List ℕ → List (List ℕ)
split_lines [] = [] ∷ []
split_lines (c ∷ cs) = let rest = split_lines cs in if eqb c 10 then [] ∷ rest else prepend c rest

pub record Read : Type 0 where
  pub records : List CooldownRecord
  pub malformed : ℕ

abbrev pub parsed : Dates → Option Json → Option CooldownRecord
parsed d none = none
parsed d (some v) = parse_record d v

abbrev pub one_more : Option CooldownRecord → Read → Read
one_more none r = record r { malformed = suc r.malformed }
one_more (some e) r = record r { records = e ∷ r.records }

-- The loop over the lines.
unfoldable pub read_lines : Dates → JsonText → List (List ℕ) → Read
unfolding parse_record
read_lines d j [] = record { records = []; malformed = 0 }
read_lines d j (l ∷ ls) =
    let rest = read_lines d j ls in
    if eqb (length l) 0 then rest else one_more (parsed d (j.parse_json l)) rest

-- `readRecords`: none is "unreadable".
unfoldable pub read_records : Dates → JsonText → Stat → Bool → List ℕ → Option Read
unfolding read_lines split_lines
read_records d j missing readable file = some record { records = []; malformed = 0 }
read_records d j stat_failed readable file = none
read_records d j untrusted readable file = none
read_records d j trusted readable file =
    if readable then some (read_lines d j (split_lines file)) else none

-- `AvailabilityEvidence`; the failure is the timestamp, the class and the code of the last record.
pub record Evidence : Type 0 where
  pub records : ℕ
  pub malformed : Option ℕ
  pub unreadable : Bool
  pub last_failure : Option (String × FailureClass × String)

-- `CandidateAvailability`.
pub record CandidateAvailability : Type 0 where
  pub status : Status
  pub retry_not_before : Option String
  pub evidence : Evidence

unfoldable pub same_key : Quota → CooldownRecord → Bool
same_key k e =
    e.key.provider == k.provider
    && (e.key.billing_product == k.billing_product
        && (e.key.account == k.account && e.key.scope == k.scope))

abbrev pub is_quota : FailureClass → Bool
is_quota quota = true
is_quota _ = false

abbrev pub is_transport : FailureClass → Bool
is_transport transport = true
is_transport _ = false

abbrev after : Option ℕ → ℕ → Bool
after none now = false
after (some ms) now = ltb now ms

-- A quota record whose cooldown has not ended.
unfoldable pub is_active_quota : Dates → ℕ → CooldownRecord → Bool
unfolding cooldown_expiry_ms
is_active_quota d now e = is_quota e.failure_class && after (cooldown_expiry_ms d e) now

abbrev within : Option ℕ → ℕ → Bool
within none now = false
within (some ms) now = ltb now (ms + evidence_window_ms)

unfoldable pub is_recent : Dates → ℕ → CooldownRecord → Bool
is_recent d now e = within (d.parse_date e.timestamp) now

-- The instants that the active records signal.
unfoldable pub signaled : Dates → List CooldownRecord → List ℕ
signaled d [] = []
signaled d (e ∷ es) =
    let rest = signaled d es in
    elim e.retry_not_before [
      | none ↦ rest
      | some s ↦ elim (d.parse_date s) [ none ↦ rest | some ms ↦ ms ∷ rest ]
    ]

unfoldable pub latest : ℕ → List ℕ → ℕ
latest m [] = m
latest m (n ∷ ns) = latest (if ltb m n then n else m) ns

abbrev pub evidence_of : Read → List CooldownRecord → Evidence
evidence_of r matching = record {
  records = length matching;
  malformed = if eqb r.malformed 0 then none else some r.malformed;
  unreadable = false;
  last_failure = elim (last matching) [
    | none ↦ none
    | some e ↦ some (e.timestamp, e.failure_class, e.code)
  ];
}

abbrev pub answer : Status → Option String → Evidence → Option CandidateAvailability
answer status retry e = some record { status = status; retry_not_before = retry; evidence = e }

-- The answer under an active cooldown: none is the range error of `toISOString`.
unfoldable pub exhausted : Dates → List ℕ → Evidence → Option CandidateAvailability
unfolding latest
exhausted d [] e = answer known_exhausted none e
exhausted d (n ∷ ns) e = elim (d.iso (latest n ns)) [
  | none ↦ none
  | some s ↦ answer known_exhausted (some s) e
]

-- The answer for the records of one key.
unfoldable pub judge : Dates → ℕ → List CooldownRecord → Evidence → Option CandidateAvailability
unfolding is_active_quota is_recent signaled exhausted
judge d now matching e =
    let active = keep (is_active_quota d now) matching in
    let recent = keep (is_recent d now) matching in
    if not (eqb (length active) 0)
    then exhausted d (signaled d active) e
    else if any (λ (r : CooldownRecord). is_transport r.failure_class) recent
    then answer local_capacity_limited none e
    else if not (eqb (length recent) 0)
    then answer degraded none e
    else answer unknown_status none e

abbrev nothing_read : Evidence
nothing_read = record { records = 0; malformed = none; unreadable = true; last_failure = none }

-- `availability`: none is a throw.
unfoldable pub availability :
    Dates
    → JsonText
    → Bool
    → String
    → RunnerEntry
    → ℕ
    → Stat
    → Bool
    → List ℕ
    → Option CandidateAvailability
unfolding availability_key_for read_records same_key judge last
availability d j root_absolute model runner now stat readable file =
    if not root_absolute then none else elim (availability_key_for model runner) [
      | none ↦ none
      | some k ↦ elim (read_records d j stat readable file) [
        | none ↦ answer unknown_status none nothing_read
        | some r ↦
            let matching = keep (same_key k) r.records in
            judge d now matching (evidence_of r matching)
      ]
    ]
