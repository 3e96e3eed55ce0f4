-- ===== src/Availability/Recorded.antt =====
-- Recording a failure and then asking for the availability, in src/availability.ts.
use mathlib.Core.Option.{some_inj}
use mathlib.Core.List.{append-nil}
use herdr_tools.Base.{
  ℕ, ◌≡◌, refl, sym, subst, Bool, true, false, not, String, List, [], ◌∷◌, ◌++◌, Option, none, some,
  take, arith, if_rule, option_rule,
}
use herdr_tools.Supervision.Json.{Fields}
use herdr_tools.Routing.Chains.{Quota}
use herdr_tools.Availability.{Dates, build_record}
use herdr_tools.Availability.Keys.{RunnerEntry, availability_key_for}
use herdr_tools.Availability.Failures.{Signal, Classified, classify_launch_failure}
use herdr_tools.Availability.Log.{
  JsonText, missing, stat_failed, untrusted, trusted, Attempt, open_and_write, append_line,
  append_locked, recorded, record_launch_failure,
}

-- What an append did to a file, by its answer: the whole line if it returns, and a part of it otherwise.
record Appended (line file : List ℕ) (r : Bool × List ℕ) : Type 0 where
  extra : List ℕ
  file_is : r.1 ≡ file ++ extra
  whole : r.0 ≡ true → extra ≡ line

nothing-Appended : (line file : List ℕ) → Appended line file (false, file)
nothing-Appended line file = record {
  extra = [];
  file_is = sym (append-nil file);
  whole = λ h. absurd (ground arith);
}

open_and_write-Appended :
    (a : Attempt) (line file : List ℕ) → Appended line file (open_and_write a line file)
open_and_write-Appended a line file =
    if_rule (Appended line file) (not a.opens) _ _ (λ c. nothing-Appended line file)
      (λ c.
        if_rule (Appended line file) (not a.opened_trusted) _ _ (λ c. nothing-Appended line file)
          (λ c.
            option_rule (Appended line file) a.write_stops _ _
              (λ whole. record { extra = line; file_is = refl; whole = λ h. refl })
              (λ n stopped. record {
                extra = take n line;
                file_is = refl;
                whole = λ h. absurd (ground arith);
              })))

append_line-Appended :
    (a : Attempt) (line file : List ℕ) → Appended line file (append_line a line file)
unfolding append_line
append_line-Appended a line file =
    elim a.stat as (λ st. Appended line file (append_line (record a { stat = st }) line file)) [
      | missing ↦ open_and_write-Appended a line file
      | stat_failed ↦ nothing-Appended line file
      | untrusted ↦ nothing-Appended line file
      | trusted ↦ open_and_write-Appended a line file
    ]

append_locked-Appended :
    (a : Attempt) (line file : List ℕ) → Appended line file (append_locked a line file)
append_locked-Appended a line file =
    if_rule (Appended line file) (not a.directory_ready) _ _ (λ c. nothing-Appended line file)
      (λ c.
        if_rule (Appended line file) (not a.lock_held) _ _ (λ c. nothing-Appended line file)
          (λ c. append_line-Appended a line file))

module _ (d : Dates) (j : JsonText) (model : String) (runner : RunnerEntry) (s : Signal)
    (now : ℕ) where
  abbrev pub class_of : Classified
  class_of = classify_launch_failure s

  -- The line of a recording.
  pub record Written (line : List ℕ) : Type 0 where
    pub key : Quota
    pub fields : Fields
    pub named : availability_key_for model runner ≡ some key
    pub built : build_record d key class_of s now ≡ some fields
    pub text : line ≡ j.stringify fields ++ 10 ∷ []

  -- What a recording did to the file, by its answer.
  pub record Recorded (file : List ℕ) (r : Option Classified × List ℕ) : Type 0 where
    pub extra : List ℕ
    pub file_is : r.1 ≡ file ++ extra
    pub whole : (c : Classified) → r.0 ≡ some c → (c ≡ class_of) × Written extra

  nothing-Recorded : (file : List ℕ) → Recorded file (none, file)
  nothing-Recorded file = record {
    extra = [];
    file_is = sym (append-nil file);
    whole = λ c h. absurd (ground arith);
  }

  recorded-Recorded :
      (line file : List ℕ) (r : Bool × List ℕ)
      → Written line
      → Appended line file r
      → Recorded file (recorded class_of r)
  recorded-Recorded line file (true, after) w a = record {
    extra = a.extra;
    file_is = a.file_is;
    whole = λ c h. (sym (some_inj.0 h), subst Written (sym (a.whole refl)) w);
  }
  recorded-Recorded line file (false, after) w a = record {
    extra = a.extra;
    file_is = a.file_is;
    whole = λ c h. absurd (ground arith);
  }

  pub record_launch_failure-Recorded :
      (a : Attempt) (file : List ℕ)
      → Recorded file (record_launch_failure d j model runner s now a file)
  unfolding record_launch_failure
  record_launch_failure-Recorded a file =
      if_rule (Recorded file) (not a.root_absolute) _ _ (λ c. nothing-Recorded file)
        (λ c.
          option_rule (Recorded file) (availability_key_for model runner) _ _
            (λ c. nothing-Recorded file)
            (λ k named.
              option_rule (Recorded file) (build_record d k class_of s now) _ _
                (λ c. nothing-Recorded file)
                (λ fs built.
                  let line = j.stringify fs ++ 10 ∷ [] in
                  recorded-Recorded line file (append_locked a line file)
                    record { key = k; fields = fs; named = named; built = built; text = refl }
                    (append_locked-Appended a line file))))
