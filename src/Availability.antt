-- ===== src/Availability.antt =====
-- src/availability.ts: the record of a launch failure, its writing and its reading.
pub mod Codes
pub mod Keys
pub mod Failures
pub mod Log
pub mod RoundTrip
pub mod Judged
pub mod Reset
pub mod Lines
pub mod Answers
pub mod Recorded
pub mod Exhausts
pub mod Routed
mod Tests
mod RoutedTests
use herdr_tools.Base.{
  ℕ, zero, suc, ◌+◌, Bool, true, false, not, ◌&&◌, ◌||◌, String, ◌==◌, List, [], ◌∷◌, Option, none,
  some, all, length, leb, eqb, get_or, is_some, if◌then◌else◌, codes, byte_length, is_identifier,
  is_digit, is_lower, is_upper,
}
use herdr_tools.Supervision.Json.{Json, text, object, null, Fields, no_fields, field, lookup}
use herdr_tools.Routing.Chains.{Quota}
use herdr_tools.Availability.Codes.{
  FailureClass, quota, auth, unsupported_config, permission_prompt, transport, task_failure,
  failure_class_by_code,
}
use herdr_tools.Availability.Keys.{key_fields}
use herdr_tools.Availability.Failures.{
  Classified, classed, inherited, ResetSignal, no_reset, reset_text, reset_instant, Signal,
}

abbrev is_word : ℕ → Bool
is_word c = is_lower c || (is_upper c || (is_digit c || eqb c 95))

abbrev matches_code : List ℕ → Bool
matches_code [] = false
matches_code (c ∷ cs) = (is_lower c || is_upper c) && (all is_word cs && leb (length cs) 63)

-- `CODE_PATTERN`.
unfoldable pub is_code : String → Bool
is_code s = matches_code (codes s)

-- `codeField`.
unfoldable pub code_field : String → Option String
unfolding is_code
code_field s = if is_code s then some s else none

-- `Date.parse`, where none is not a number, and `toISOString`, where none is its range error.
pub record Dates : Type 0 where
  pub parse_date : String → Option ℕ
  pub iso : ℕ → Option String

-- `CooldownRecord`; its class is as `classifyLaunchFailure` gives it.
pub record CooldownRecord : Type 0 where
  pub timestamp : String
  pub key : Quota
  pub failure_class : FailureClass
  pub code : String
  pub cause_code : Option String
  pub retry_not_before : Option String

abbrev in_range : Option String → Option (Option String)
in_range none = none
in_range (some s) = some (some s)

abbrev finite : Dates → Option ℕ → Option (Option String)
finite d none = none
finite d (some ms) = in_range (d.iso ms)

-- `retryInstant`: the outer none is a refusal.
unfoldable pub retry_instant : Dates → ResetSignal → Option (Option String)
retry_instant d no_reset = some none
retry_instant d (reset_text s) = finite d (d.parse_date s)
retry_instant d (reset_instant ms) = finite d ms

abbrev optional_code : Option String → Option (Option String)
optional_code none = some none
optional_code (some c) = in_range (code_field c)

abbrev class_text : FailureClass → String
class_text quota = "quota"
class_text auth = "auth"
class_text unsupported_config = "unsupported-config"
class_text permission_prompt = "permission-prompt"
class_text transport = "transport"
class_text task_failure = "task-failure"

abbrev text_or_null : Option String → Json
text_or_null none = null
text_or_null (some s) = text s

-- An inherited function has no JSON form: `modelSafeJson` drops its field. It leaves the other fields of
-- a record as they are: their values are texts or null, and no name is that of an environment.
abbrev class_field : Classified → Fields → Fields
class_field (classed c) rest = field "failureClass" (text (class_text c)) rest
class_field inherited rest = rest

abbrev record_fields : String → Quota → Classified → String → Option String → Option String → Fields
record_fields at k c code cause retry = field "timestamp" (text at) (
    field "provider" (text k.provider) (
      field "billingProduct" (text k.billing_product) (
        field "account" (text k.account) (
          field "scope" (text k.scope) (
            class_field c (
              field "code" (text code) (
                field "causeCode" (text_or_null cause)
                  (field "retryNotBefore" (text_or_null retry) no_fields))))))))

abbrev built :
    Quota
    → Classified
    → Option String
    → Option String
    → Option (Option String)
    → Option (Option String)
    → Option Fields
built k c (some at) (some code) (some cause) (some retry) =
    some (record_fields at k c code cause retry)
built k c _ _ _ _ = none

-- `buildRecord`, as the object that is written; none is a refusal.
unfoldable pub build_record : Dates → Quota → Classified → Signal → ℕ → Option Fields
unfolding code_field retry_instant
build_record d k c s now =
    built k c (d.iso now) (code_field s.code) (optional_code s.cause_code)
      (retry_instant d s.retry_not_before)

-- `Object.keys(value).length`.
unfoldable pub key_count : Fields → ℕ
unfolding lookup
key_count no_fields = 0
key_count (field j v fs) = if is_some (lookup j fs) then key_count fs else suc (key_count fs)

abbrev nonempty_text : Option Json → Option String
nonempty_text (some (text s)) = if eqb (length (codes s)) 0 then none else some s
nonempty_text _ = none

abbrev date_text : Dates → Option Json → Option String
date_text d (some (text s)) = if is_some (d.parse_date s) then some s else none
date_text d _ = none

abbrev class_of_text : Option Json → Option FailureClass
class_of_text (some (text s)) =
    if s == "quota"
    then some quota
    else if s == "auth"
    then some auth
    else if s == "unsupported-config"
    then some unsupported_config
    else if s == "permission-prompt"
    then some permission_prompt
    else if s == "transport"
    then some transport
    else if s == "task-failure"
    then some task_failure
    else none
class_of_text _ = none

abbrev code_text : Option Json → Option String
code_text (some (text s)) = code_field s
code_text _ = none

abbrev null_or : (Option Json → Option String) → Option Json → Option (Option String)
null_or f (some null) = some none
null_or f j = in_range (f j)

abbrev read_fields :
    Option String
    → Option Quota
    → Option FailureClass
    → Option String
    → Option (Option String)
    → Option (Option String)
    → Option CooldownRecord
read_fields (some at) (some k) (some c) (some code) (some cause) (some retry) = some record {
  timestamp = at;
  key = k;
  failure_class = c;
  code = code;
  cause_code = cause;
  retry_not_before = retry;
}
read_fields _ _ _ _ _ _ = none

-- `parseRecord`.
unfoldable pub parse_record : Dates → Json → Option CooldownRecord
unfolding key_count lookup code_field
parse_record d (object fs) =
    if not (eqb (key_count fs) 9)
    then none
    else read_fields (date_text d (lookup "timestamp" fs))
        (key_fields (nonempty_text (lookup "provider" fs))
          (nonempty_text (lookup "billingProduct" fs)) (nonempty_text (lookup "account" fs))
          (nonempty_text (lookup "scope" fs)))
        (class_of_text (lookup "failureClass" fs)) (code_text (lookup "code" fs))
        (null_or code_text (lookup "causeCode" fs))
        (null_or (date_text d) (lookup "retryNotBefore" fs))
parse_record d _ = none

abbrev pub default_quota_cooldown_ms : ℕ
default_quota_cooldown_ms = 900_000

abbrev pub evidence_window_ms : ℕ
evidence_window_ms = 900_000

abbrev later_by : ℕ → Option ℕ → Option ℕ
later_by n none = none
later_by n (some ms) = some (ms + n)

-- `cooldownExpiryMs`.
unfoldable pub cooldown_expiry_ms : Dates → CooldownRecord → Option ℕ
cooldown_expiry_ms d r = elim r.retry_not_before [
  | some s ↦ d.parse_date s
  | none ↦ later_by default_quota_cooldown_ms (d.parse_date r.timestamp)
]
