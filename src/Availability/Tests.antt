-- ===== src/Availability/Tests.antt =====
-- The availability floor on concrete failures, and its theorems at concrete inputs.
use mathlib.Core.Option.{some_inj}
use herdr_tools.Base.{
  ℕ, ◌≡◌, refl, sym, ap, ◌∙◌, true, false, String, ◌==◌, List, [], ◌∷◌, some, none, eqb,
  if◌then◌else◌, arith, inl, inr, ◌⊎◌, Bool-cases,
}
use herdr_tools.Supervision.Json.{text, object, null, Fields, no_fields, field}
use herdr_tools.Routing.Chains.{Quota, known_exhausted}
use herdr_tools.Availability.Codes.{FailureClass, quota}
use herdr_tools.Availability.{Dates, CooldownRecord, build_record, parse_record}
use herdr_tools.Availability.Keys.{RunnerEntry, availability_key_for}
use herdr_tools.Availability.Failures.{
  Signal, signal_of, reset_instant, classed, inherited, classify_launch_failure,
}
use herdr_tools.Availability.Log.{
  JsonText, missing, trusted, Attempt, Read, CandidateAvailability, record_launch_failure,
  availability,
}
use herdr_tools.Availability.RoundTrip.{
  ReadsIso, IsReadable, Tells, availability_key_for-IsReadable, parse_record-build_record,
}
use herdr_tools.Availability.Lines.{IsTerminated, WritesLine}
use herdr_tools.Availability.Answers.{InRange}
use herdr_tools.Availability.Exhausts.{
  quota_until, record_launch_failure-keeps_exhausted, record_launch_failure-exhausts,
}

-- Two instants that have a text.
abbrev pub dates : Dates
dates = record {
  parse_date = λ s. if s == "five" then some 5 else if s == "nine" then some 9 else none;
  iso = λ ms. if eqb ms 5 then some "five" else if eqb ms 9 then some "nine" else none;
}

five_or_nine :
    (ms : ℕ) (s : String)
    → (if eqb ms 5 then some "five" else if eqb ms 9 then some "nine" else none) ≡ some s
    → ((ms ≡ 5) × (s ≡ "five")) ⊎ ((ms ≡ 9) × (s ≡ "nine"))
five_or_nine ms s h = elim (Bool-cases (eqb ms 5)) [
  | inl five ↦ inl (ground arith)
  | inr other ↦ elim (Bool-cases (eqb ms 9)) [
    | inl nine ↦ inr (ground arith)
    | inr neither ↦ absurd (ground arith)
  ]
]

pub dates-ReadsIso : ReadsIso dates
dates-ReadsIso ms s h = elim (five_or_nine ms s h) [
  | inl (m, t) ↦ rw (m, t) refl
  | inr (m, t) ↦ rw (m, t) refl
]

pub dates-InRange : InRange dates
dates-InRange s ms h = elim (Bool-cases (s == "five")) [
  | inl five ↦ ("five", ground arith)
  | inr other ↦ elim (Bool-cases (s == "nine")) [
    | inl nine ↦ ("nine", ground arith)
    | inr neither ↦ absurd (ground arith)
  ]
]

abbrev pub pi : RunnerEntry
pi = record {
  models =
      record { model = "m1"; provider = some "y"; quota = none }
      ∷ record { model = "m2"; provider = none; quota = none }
      ∷ [];
  quota = record { provider = "z"; billing_product = "b"; account = "a"; scope = "s" };
}

abbrev pub key : Quota
key = record { provider = "y"; billing_product = "b"; account = "a"; scope = "s" }

pub key_named : availability_key_for "m1" pi ≡ some key
unfolding availability_key_for
key_named = refl

-- An overloaded provider that says when to come back.
abbrev pub overloaded : Signal
overloaded = record {
  code = "LAUNCH_FAILED";
  cause_code = some "overloaded";
  retry_not_before = reset_instant (some 9);
}

overloaded_class : classify_launch_failure overloaded ≡ classed quota
unfolding classify_launch_failure
overloaded_class = refl

unfamiliar_class :
    classify_launch_failure (signal_of "quota_maybe") ≡ classed FailureClass.task_failure
unfolding classify_launch_failure
unfamiliar_class = refl

constructor_class : classify_launch_failure (signal_of "constructor") ≡ inherited
unfolding classify_launch_failure
constructor_class = refl

-- The object that is written for the overloaded provider.
abbrev pub written : Fields
written = field "timestamp" (text "five") (
    field "provider" (text "y") (
      field "billingProduct" (text "b") (
        field "account" (text "a") (
          field "scope" (text "s") (
            field "failureClass" (text "quota") (
              field "code" (text "LAUNCH_FAILED") (
                field "causeCode" (text "overloaded")
                  (field "retryNotBefore" (text "nine") no_fields))))))))

pub built : build_record dates key (classify_launch_failure overloaded) overloaded 5 ≡ some written
unfolding build_record classify_launch_failure
built = refl

-- A text of the object, as far as this run needs one.
abbrev pub one_text : JsonText
one_text = record { stringify = λ fs. 123 ∷ 125 ∷ []; parse_json = λ line. some (object written) }

pub writes_line :
    (fs : Fields)
    → build_record dates key (classify_launch_failure overloaded) overloaded 5 ≡ some fs
    → WritesLine one_text fs
writes_line fs h = record {
  reads = ap (λ x. some (object x)) (some_inj.0 (sym built ∙ h));
  one_line = (ground arith, (ground arith, tt));
  nonempty = ground arith;
}

abbrev pub good : Attempt
good = record {
  root_absolute = true;
  directory_ready = true;
  lock_held = true;
  stat = missing;
  opens = true;
  opened_trusted = true;
  write_stops = none;
}

abbrev pub file_after : List ℕ
file_after = (record_launch_failure dates one_text "m1" pi overloaded 5 good []).1

pub recording :
    (record_launch_failure dates one_text "m1" pi overloaded 5 good []).0 ≡ some (classed quota)
unfolding record_launch_failure
recording = refl

abbrev key-IsReadable : IsReadable key
key-IsReadable = availability_key_for-IsReadable "m1" pi key key_named

parse_record-build_record_example :
    (r : CooldownRecord) × (parse_record dates (object written) ≡ some r)
    × Tells dates key quota overloaded 5 r
unfolding build_record
parse_record-build_record_example =
    parse_record-build_record dates key quota overloaded 5 written dates-ReadsIso key-IsReadable
      refl

-- The object for a failure whose code is "constructor": it has no class.
abbrev unclassed : Fields
unclassed = field "timestamp" (text "five") (
    field "provider" (text "y") (
      field "billingProduct" (text "b") (
        field "account" (text "a") (
          field "scope" (text "s") (
            field "code" (text "constructor")
              (field "causeCode" null (field "retryNotBefore" null no_fields)))))))

pub until_nine : quota_until dates overloaded.retry_not_before 5 ≡ some 9
unfolding quota_until
until_nine = refl

record_launch_failure-exhausts_example :
    (after : CandidateAvailability) × (availability dates one_text true "m1" pi 7 trusted true
        file_after
      ≡ some after)
    × (after.status ≡ known_exhausted)
record_launch_failure-exhausts_example =
    record_launch_failure-exhausts dates one_text "m1" pi overloaded 5 good [] "m1" pi key 7 9
      dates-ReadsIso dates-InRange (inl refl) writes_line key_named key_named recording until_nine
      (omega arith)

abbrev seven : CandidateAvailability
seven = record {
  status = known_exhausted;
  retry_not_before = some "nine";
  evidence = record {
    records = 1;
    malformed = none;
    unreadable = false;
    last_failure = some ("five", quota, "LAUNCH_FAILED");
  };
}

at_seven : availability dates one_text true "m1" pi 7 trusted true file_after ≡ some seven
unfolding availability record_launch_failure
at_seven = refl

file_after-IsTerminated : IsTerminated file_after
unfolding record_launch_failure
file_after-IsTerminated = inr (123 ∷ 125 ∷ [], refl)

-- A second recording whose write fails in the middle.
abbrev broken : Attempt
broken = record good { stat = trusted; write_stops = some 1 }

record_launch_failure-keeps_exhausted_example :
    (after : CandidateAvailability) × (availability dates one_text true "m1" pi 7 trusted true
        (record_launch_failure dates one_text "m1" pi overloaded 5 broken file_after).1
      ≡ some after)
    × (after.status ≡ known_exhausted)
record_launch_failure-keeps_exhausted_example =
    record_launch_failure-keeps_exhausted dates one_text "m1" pi overloaded 5 broken file_after "m1"
      pi key 7 seven dates-InRange file_after-IsTerminated key_named at_seven refl

abbrev read_after : Read
read_after = record {
  records =
      record {
        timestamp = "five";
        key = key;
        failure_class = quota;
        code = "LAUNCH_FAILED";
        cause_code = some "overloaded";
        retry_not_before = some "nine";
      }
      ∷ [];
  malformed = 0;
}
