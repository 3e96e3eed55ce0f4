-- ===== src/Availability/Exhausts.antt =====
-- A recorded quota failure and the availability that is asked for after it, in src/availability.ts.
use mathlib.Core.Option.{some_inj}
use herdr_tools.Base.{
  ℕ, ◌+◌, ◌<◌, ◌≡◌, refl, sym, ap, ◌∙◌, Bool, true, false, ◌&&◌, ◌||◌, String, eq_refl, List, [],
  ◌∷◌, ◌++◌, Option, none, some, any, arith,
}
use herdr_tools.Supervision.Json.{Fields}
use herdr_tools.Routing.Chains.{Quota, known_exhausted}
use herdr_tools.Availability.Codes.{quota}
use herdr_tools.Availability.{
  Dates, CooldownRecord, build_record, retry_instant, cooldown_expiry_ms, default_quota_cooldown_ms,
  finite,
}
use herdr_tools.Availability.Keys.{RunnerEntry, availability_key_for}
use herdr_tools.Availability.Failures.{
  Signal, classed, ResetSignal, no_reset, reset_text, reset_instant, classify_launch_failure,
}
use herdr_tools.Availability.RoundTrip.{
  ReadsIso, availability_key_for-IsReadable, parse_record-build_record, in_range_lem,
}
use herdr_tools.Availability.Lines.{
  IsTerminated, WritesLine, records_of, records_of-terminated, records_of_line,
}
use herdr_tools.Availability.Judged.{availability-exhausted}
use herdr_tools.Availability.Answers.{InRange, read_of, active_answers}
use herdr_tools.Availability.Log.{
  JsonText, trusted, Attempt, CandidateAvailability, record_launch_failure, split_lines,
  read_records, same_key, is_active_quota, availability,
}
use herdr_tools.Availability.Recorded.{record_launch_failure-Recorded}

any-append {ℓ} :
    {A : Type ℓ} (p : A → Bool) (xs ys : List A) → any p (xs ++ ys) ≡ (any p xs || any p ys)
any-append p [] ys = refl
any-append p (x ∷ xs) ys = ground (arith, any-append p xs ys)

-- The instant at which a quota failure stops to exclude its key: the one that the source signals, or
-- the end of the quarantine.
unfoldable pub quota_until : Dates → ResetSignal → ℕ → Option ℕ
quota_until d no_reset now = some (now + default_quota_cooldown_ms)
quota_until d (reset_text s) now = d.parse_date s
quota_until d (reset_instant ms) now = ms

finite_expiry :
    (d : Dates) (ms : Option ℕ) (until : ℕ) (r : CooldownRecord)
    → ReadsIso d
    → ms ≡ some until
    → finite d ms ≡ some r.retry_not_before
    → cooldown_expiry_ms d r ≡ some until
unfolding cooldown_expiry_ms
finite_expiry d ms until r iso e h =
    let (u, written, same) =
      in_range_lem (d.iso until) r.retry_not_before (ap (finite d) (sym e) ∙ h) in
    rw same (iso until u written)

quarantine_expiry :
    (d : Dates) (now until : ℕ) (r : CooldownRecord)
    → none ≡ r.retry_not_before
    → d.parse_date r.timestamp ≡ some now
    → some (now + default_quota_cooldown_ms) ≡ some until
    → cooldown_expiry_ms d r ≡ some until
unfolding cooldown_expiry_ms
quarantine_expiry d now until r e at h = rw (← e, at) h

expiry_lem :
    (d : Dates) (sig : ResetSignal) (now until : ℕ) (r : CooldownRecord)
    → ReadsIso d
    → d.parse_date r.timestamp ≡ some now
    → retry_instant d sig ≡ some r.retry_not_before
    → quota_until d sig now ≡ some until
    → cooldown_expiry_ms d r ≡ some until
unfolding retry_instant quota_until
expiry_lem d no_reset now until r iso at e h = quarantine_expiry d now until r (some_inj.0 e) at h
expiry_lem d (reset_text s) now until r iso at e h =
    finite_expiry d (d.parse_date s) until r iso h e
expiry_lem d (reset_instant ms) now until r iso at e h = finite_expiry d ms until r iso h e

same_key_self : (k : Quota) (r : CooldownRecord) → r.key ≡ k → same_key k r ≡ true
unfolding same_key
same_key_self k r e = rw e (
    let p = eq_refl k.provider in
    let b = eq_refl k.billing_product in
    let a = eq_refl k.account in let s = eq_refl k.scope in ground arith)

active_lem :
    (d : Dates) (now until : ℕ) (r : CooldownRecord)
    → r.failure_class ≡ quota
    → cooldown_expiry_ms d r ≡ some until
    → now < until
    → is_active_quota d now r ≡ true
unfolding is_active_quota
active_lem d now until r c e l = rw (c, e) (ground arith)

last_true : (a b : Bool) → b ≡ true → (a || (b || false)) ≡ true
last_true a b h = ground arith

readable :
    (d : Dates) (j : JsonText) (file : List ℕ)
    → read_records d j trusted true file ≡ some (read_of d j file)
unfolding read_records
readable d j file = refl

-- A recording never ends the exhaustion of a candidate, whatever becomes of its append, if the
-- root is absolute, the file is terminated before it, trusted and can be read, and every date that is read can be written.
pub record_launch_failure-keeps_exhausted :
    (d : Dates) (j : JsonText) (model : String) (runner : RunnerEntry) (s : Signal) (now : ℕ)
    (a : Attempt) (file : List ℕ) (other_model : String) (other : RunnerEntry) (k : Quota)
    (then_ : ℕ) (before : CandidateAvailability)
    → InRange d
    → IsTerminated file
    → availability_key_for other_model other ≡ some k
    → availability d j true other_model other then_ trusted true file ≡ some before
    → before.status ≡ known_exhausted
    → (after : CandidateAvailability) × (availability d j true other_model other then_ trusted true
          (record_launch_failure d j model runner s now a file).1
        ≡ some after)
      × (after.status ≡ known_exhausted)
record_launch_failure-keeps_exhausted d j model runner s now a file other_model other k then_ before
      w t named given exhausted =
    let p : CooldownRecord → Bool = (λ e. same_key k e && is_active_quota d then_ e) in
    let done = record_launch_failure-Recorded d j model runner s now a file in
    let active : any p (records_of d j (split_lines file)) ≡ true =
      (availability-exhausted d j other_model other then_ trusted true file k (read_of d j file)
          before named (readable d j file) given).0
        exhausted in
    let more = records_of-terminated d j file done.extra t in
    let still : any p (records_of d j (split_lines (file ++ done.extra))) ≡ true =
      ap (any p) more
      ∙ any-append p _ _
      ∙ ap (λ b. b || any p (records_of d j (split_lines done.extra))) active in
    active_answers d j other_model other then_
      (record_launch_failure d j model runner s now a file).1 k w named
      (ap (λ f. any p (records_of d j (split_lines f))) done.file_is ∙ still)

-- A quota failure that was recorded in a terminated file makes every candidate of its key
-- exhausted until the instant that the source signaled or, where it signaled none, the end of the
-- quarantine, if the root is absolute and the file is trusted and can be read when it is asked for,
-- every date that is read can be written, dates are read back as they are written and the line of
-- the record too.
pub record_launch_failure-exhausts :
    (d : Dates) (j : JsonText) (model : String) (runner : RunnerEntry) (s : Signal) (now : ℕ)
    (a : Attempt) (file : List ℕ) (other_model : String) (other : RunnerEntry) (k : Quota)
    (then_ until : ℕ)
    → ReadsIso d
    → InRange d
    → IsTerminated file
    → ((fs : Fields)
        → build_record d k (classify_launch_failure s) s now ≡ some fs
        → WritesLine j fs)
    → availability_key_for model runner ≡ some k
    → availability_key_for other_model other ≡ some k
    → (record_launch_failure d j model runner s now a file).0 ≡ some (classed quota)
    → quota_until d s.retry_not_before now ≡ some until
    → then_ < until
    → (after : CandidateAvailability) × (availability d j true other_model other then_ trusted true
          (record_launch_failure d j model runner s now a file).1
        ≡ some after)
      × (after.status ≡ known_exhausted)
record_launch_failure-exhausts d j model runner s now a file other_model other k then_ until iso w t
      writes named_first named h ends l =
    let p : CooldownRecord → Bool = (λ e. same_key k e && is_active_quota d then_ e) in
    let done = record_launch_failure-Recorded d j model runner s now a file in
    let (class, line) = done.whole (classed quota) h in
    let keys : line.key ≡ k = some_inj.0 (sym line.named ∙ named_first) in
    let built : build_record d k (classify_launch_failure s) s now ≡ some line.fields =
      ap (λ q. build_record d q (classify_launch_failure s) s now) (sym keys) ∙ line.built in
    let (r, read, tells) =
      parse_record-build_record d k quota s now line.fields iso
        (availability_key_for-IsReadable model runner k named_first)
        (ap (λ c. build_record d k c s now) class ∙ built) in
    let ends_at = expiry_lem d s.retry_not_before now until r iso tells.at tells.retry ends in
    let mine : p r ≡ true =
      let same = same_key_self k r tells.key in
      let active = active_lem d then_ until r tells.failure_class ends_at l in ground arith in
    let added : records_of d j (split_lines done.extra) ≡ r ∷ [] =
      ap (λ x. records_of d j (split_lines x)) line.text
      ∙ records_of_line d j line.fields r (writes line.fields built) read in
    let more = records_of-terminated d j file done.extra t in
    let now_active : any p (records_of d j (split_lines (file ++ done.extra))) ≡ true =
      ap (any p) (more ∙ ap (λ rs. records_of d j (split_lines file) ++ rs) added)
      ∙ any-append p _ (r ∷ [])
      ∙ last_true (any p (records_of d j (split_lines file))) (p r) mine in
    active_answers d j other_model other then_
      (record_launch_failure d j model runner s now a file).1 k w named
      (ap (λ f. any p (records_of d j (split_lines f))) done.file_is ∙ now_active)
