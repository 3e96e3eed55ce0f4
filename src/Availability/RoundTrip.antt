-- ===== src/Availability/RoundTrip.antt =====
-- What src/availability.ts writes of a failure, it reads back.
use mathlib.Core.Option.{some_inj}
use herdr_tools.Base.{
  ℕ, ◌≡◌, ◌≢◌, refl, sym, ap, subst, String, Option, none, some, length, arith, codes,
  is_identifier,
}
use herdr_tools.Routing.Chains.{Quota}
use herdr_tools.Supervision.Json.{text, object, Fields, lookup}
use herdr_tools.Availability.Codes.{
  FailureClass, quota, auth, unsupported_config, permission_prompt, transport, task_failure,
}
use herdr_tools.Availability.{
  in_range, finite, read_fields, date_text, nonempty_text, class_of_text, class_text, code_text,
  text_or_null, null_or, optional_code, built, record_fields, Dates, CooldownRecord, build_record,
  parse_record, code_field, retry_instant, key_count,
}
use herdr_tools.Availability.Keys.{
  key_fields, quota_key_for, RunnerEntry, availability_key_for, key_field,
}
use herdr_tools.Availability.Failures.{
  Signal, Classified, classed, ResetSignal, no_reset, reset_text, reset_instant,
}

-- `Date.parse` reads back what `toISOString` writes.
abbrev pub ReadsIso : Dates → Type 0
ReadsIso d = (ms : ℕ) (s : String) → d.iso ms ≡ some s → d.parse_date s ≡ some ms

-- A key whose fields can be read back.
unfoldable pub IsReadable : Quota → Type 0
IsReadable k =
    (length (codes k.provider) ≢ 0)
    × (length (codes k.billing_product) ≢ 0)
    × (length (codes k.account) ≢ 0)
    × (length (codes k.scope) ≢ 0)

key_field_nonempty : (s t : String) → key_field s ≡ some t → length (codes t) ≢ 0
unfolding key_field is_identifier
key_field_nonempty s t h = ground arith

key_fields-IsReadable :
    (p b a s : Option String) (k : Quota)
    → ((x : String) → p ≡ some x → length (codes x) ≢ 0)
    → ((x : String) → b ≡ some x → length (codes x) ≢ 0)
    → ((x : String) → a ≡ some x → length (codes x) ≢ 0)
    → ((x : String) → s ≡ some x → length (codes x) ≢ 0)
    → key_fields p b a s ≡ some k
    → IsReadable k
unfolding IsReadable
key_fields-IsReadable (some p) (some b) (some a) (some s) k f g h i e =
    subst IsReadable (some_inj.0 e) (f p refl, g b refl, h a refl, i s refl)
key_fields-IsReadable none b a s k f g h i e = ground arith
key_fields-IsReadable (some p) none a s k f g h i e = ground arith
key_fields-IsReadable (some p) (some b) none s k f g h i e = ground arith
key_fields-IsReadable (some p) (some b) (some a) none k f g h i e = ground arith

pub availability_key_for-IsReadable :
    (model : String) (r : RunnerEntry) (k : Quota)
    → availability_key_for model r ≡ some k
    → IsReadable k
unfolding availability_key_for
availability_key_for-IsReadable model r k h =
    let q = quota_key_for model r in
    key_fields-IsReadable _ _ _ _ k (key_field_nonempty q.provider)
      (key_field_nonempty q.billing_product) (key_field_nonempty q.account)
      (key_field_nonempty q.scope) h

-- What a record says of the failure that it was built for.
pub record Tells (d : Dates) (k : Quota) (c : FailureClass) (s : Signal) (now : ℕ)
    (r : CooldownRecord) : Type 0 where
  pub key : r.key ≡ k
  pub failure_class : r.failure_class ≡ c
  pub code : r.code ≡ s.code
  pub cause_code : r.cause_code ≡ s.cause_code
  pub at : d.parse_date r.timestamp ≡ some now
  pub retry : retry_instant d s.retry_not_before ≡ some r.retry_not_before

date_text_read :
    (d : Dates) (ms : ℕ) (s : String)
    → ReadsIso d
    → d.iso ms ≡ some s
    → date_text d (some (text s)) ≡ some s
date_text_read d ms s iso h = let p = iso ms s h in ground arith

nonempty_text_read : (s : String) → length (codes s) ≢ 0 → nonempty_text (some (text s)) ≡ some s
nonempty_text_read s n = ground arith

class_of_text_read : (c : FailureClass) → class_of_text (some (text (class_text c))) ≡ some c
class_of_text_read quota = refl
class_of_text_read auth = refl
class_of_text_read unsupported_config = refl
class_of_text_read permission_prompt = refl
class_of_text_read transport = refl
class_of_text_read task_failure = refl

code_field_read : (s t : String) → code_field s ≡ some t → (code_field t ≡ some t) × (t ≡ s)
unfolding code_field
code_field_read s t h = ground arith

pub in_range_lem :
    (o : Option String) (t : Option String)
    → in_range o ≡ some t
    → (u : String) × (o ≡ some u) × (t ≡ some u)
in_range_lem none t h = ground arith
in_range_lem (some u) t h = (u, refl, sym (some_inj.0 h))

optional_code_read :
    (o t : Option String)
    → optional_code o ≡ some t
    → (null_or code_text (some (text_or_null t)) ≡ some t) × (t ≡ o)
optional_code_read none t h = let e = some_inj.0 h in rw (← e) (refl, refl)
optional_code_read (some s) t h =
    let (u, found, e) = in_range_lem (code_field s) t h in
    let (read, same) = code_field_read s u found in rw e (ap in_range read, ap some same)

finite_read :
    (d : Dates) (ms : Option ℕ) (t : Option String)
    → ReadsIso d
    → finite d ms ≡ some t
    → null_or (date_text d) (some (text_or_null t)) ≡ some t
finite_read d none t iso h = ground arith
finite_read d (some n) t iso h =
    let (u, found, e) = in_range_lem (d.iso n) t h in
    rw e (ap in_range (date_text_read d n u iso found))

retry_instant_read :
    (d : Dates) (r : ResetSignal) (t : Option String)
    → ReadsIso d
    → retry_instant d r ≡ some t
    → null_or (date_text d) (some (text_or_null t)) ≡ some t
unfolding retry_instant
retry_instant_read d no_reset t iso h = let e = some_inj.0 h in rw (← e) refl
retry_instant_read d (reset_text s) t iso h = finite_read d (d.parse_date s) t iso h
retry_instant_read d (reset_instant ms) t iso h = finite_read d ms t iso h

built_lem :
    (k : Quota) (c : Classified) (at code : Option String) (cause retry : Option (Option String))
    (fs : Fields)
    → built k c at code cause retry ≡ some fs
    → (at' code' : String) × (cause' retry' : Option String) × (at ≡ some at')
      × (code ≡ some code')
      × (cause ≡ some cause')
      × (retry ≡ some retry')
      × (record_fields at' k c code' cause' retry' ≡ fs)
built_lem k c (some at) (some code) (some cause) (some retry) fs h =
    (at, code, cause, retry, refl, refl, refl, refl, some_inj.0 h)
built_lem k c none code cause retry fs h = ground arith
built_lem k c (some at) none cause retry fs h = ground arith
built_lem k c (some at) (some code) none retry fs h = ground arith
built_lem k c (some at) (some code) (some cause) none fs h = ground arith

fields_read :
    {at p b a q : Option String} {class : Option FailureClass} {code : Option String}
    {cause retry : Option (Option String)}
    → (r : CooldownRecord) → at ≡ some r.timestamp
    → p ≡ some r.key.provider
    → b ≡ some r.key.billing_product
    → a ≡ some r.key.account
    → q ≡ some r.key.scope
    → class ≡ some r.failure_class
    → code ≡ some r.code
    → cause ≡ some r.cause_code
    → retry ≡ some r.retry_not_before
    → read_fields at (key_fields p b a q) class code cause retry ≡ some r
fields_read r e1 e2 e3 e4 e5 e6 e7 e8 e9 = rw (e1, e2, e3, e4, e5, e6, e7, e8, e9) refl

-- A record that is built for a key without an empty field is read back as what it says, where
-- dates are read back as they are written: the key, the class, the codes and the reset signal of
-- the failure, and the instant of its recording.
pub parse_record-build_record :
    (d : Dates) (k : Quota) (c : FailureClass) (s : Signal) (now : ℕ) (fs : Fields)
    → ReadsIso d
    → IsReadable k
    → build_record d k (classed c) s now ≡ some fs
    → (r : CooldownRecord) × (parse_record d (object fs) ≡ some r) × Tells d k c s now r
unfolding build_record parse_record key_count lookup IsReadable
parse_record-build_record d k c s now fs iso (p, b, a, q) h =
    let (at, code, cause, retry, timed, coded, caused, retried, written) =
      built_lem k (classed c) (d.iso now) (code_field s.code) (optional_code s.cause_code)
        (retry_instant d s.retry_not_before) fs h in
    let (code_read, same_code) = code_field_read s.code code coded in
    let (cause_read, same_cause) = optional_code_read s.cause_code cause caused in
    let at_read = date_text_read d now at iso timed in
    let provider = nonempty_text_read k.provider p in
    let product = nonempty_text_read k.billing_product b in
    let account = nonempty_text_read k.account a in
    let scope = nonempty_text_read k.scope q in
    let class = class_of_text_read c in
    let retry_read = retry_instant_read d s.retry_not_before retry iso retried in
    let r : CooldownRecord = record {
      timestamp = at;
      key = k;
      failure_class = c;
      code = code;
      cause_code = cause;
      retry_not_before = retry;
    } in
    let read : parse_record d (object (record_fields at k (classed c) code cause retry)) ≡ some r =
      fields_read r at_read provider product account scope class code_read cause_read retry_read in
    (
      r,
      subst (λ x. parse_record d (object x) ≡ some r) written read,
      record {
        key = refl;
        failure_class = refl;
        code = same_code;
        cause_code = same_cause;
        at = iso now at timed;
        retry = retried;
      },
    )
