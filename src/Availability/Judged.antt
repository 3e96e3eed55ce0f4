-- ===== src/Availability/Judged.antt =====
-- `availability` of src/availability.ts: when a candidate is exhausted, and which reset it reports.
use mathlib.Core.Option.{some_inj}
use herdr_tools.Base.{
  ℕ, ◌≡◌, ◌≢◌, ◌↔◌, refl, sym, ap, subst, ◌∙◌, Bool, true, false, not, ◌&&◌, String, List, [], ◌∷◌,
  Option, none, some, any, keep, length, eqb, arith, if_rule,
}
use herdr_tools.Routing.Chains.{
  Quota, Status, unknown_status, known_exhausted, local_capacity_limited, degraded,
}
use herdr_tools.Availability.{Dates, CooldownRecord}
use herdr_tools.Availability.Keys.{RunnerEntry, availability_key_for}
use herdr_tools.Availability.Log.{
  JsonText, Stat, Read, Evidence, CandidateAvailability, read_records, same_key, is_active_quota,
  is_recent, is_transport, signaled, exhausted, judge, answer, availability, evidence_of,
}

any-keep {ℓ} :
    {A : Type ℓ} (p : A → Bool) (xs : List A) → not (eqb (length (keep p xs)) 0) ≡ any p xs
any-keep p [] = refl
any-keep p (x ∷ xs) = ground (arith, any-keep p xs)

any-keep-keep {ℓ} :
    {A : Type ℓ} (p q : A → Bool) (xs : List A) → any p (keep q xs) ≡ any (λ x. q x && p x) xs
any-keep-keep p q [] = refl
any-keep-keep p q (x ∷ xs) = ground (arith, any-keep-keep p q xs)

exhausted_status :
    (d : Dates) (ns : List ℕ) (e : Evidence) (a : CandidateAvailability)
    → exhausted d ns e ≡ some a
    → a.status ≡ known_exhausted
unfolding exhausted
exhausted_status d [] e a h = ground arith
exhausted_status d (n ∷ ns) e a h = ground arith

other :
    (s : Status) (e : Evidence) (a : CandidateAvailability) (b : Bool)
    → s ≢ known_exhausted
    → b ≡ false
    → answer s none e ≡ some a
    → (a.status ≡ known_exhausted) ↔ (b ≡ true)
other s e a b n f h =
    let same : s ≡ a.status = ap (λ (x : CandidateAvailability). x.status) (some_inj.0 h) in
    ((λ x. absurd (n (same ∙ x))), (λ x. absurd (ground arith)))

-- The answer for the records of one key is that of an exhausted one only under an active cooldown.
judge_status :
    (d : Dates) (now : ℕ) (rs : List CooldownRecord) (e : Evidence) (a : CandidateAvailability)
    → judge d now rs e ≡ some a
    → (a.status ≡ known_exhausted) ↔ (any (is_active_quota d now) rs ≡ true)
unfolding judge
judge_status d now rs e a h =
    let b = any (is_active_quota d now) rs in
    let active : not (eqb (length (keep (is_active_quota d now) rs)) 0) ≡ b =
      any-keep (is_active_quota d now) rs in
    let recent = keep (is_recent d now) rs in
    let P : Option CandidateAvailability → Type 0 =
      (λ o. o ≡ some a → (a.status ≡ known_exhausted) ↔ (b ≡ true)) in
    if_rule P (not (eqb (length (keep (is_active_quota d now) rs)) 0)) _ _
      (λ c h.
        let s = exhausted_status d (signaled d (keep (is_active_quota d now) rs)) e a h in
        ((λ x. sym active ∙ c), (λ x. s)))
      (λ c.
        if_rule P (any (λ (r : CooldownRecord). is_transport r.failure_class) recent) _ _
          (λ local. other local_capacity_limited e a b (ground arith) (sym active ∙ c))
          (λ provider.
            if_rule P (not (eqb (length recent) 0)) _ _
              (λ some_recent. other degraded e a b (ground arith) (sym active ∙ c))
              (λ none_recent. other unknown_status e a b (ground arith) (sym active ∙ c))))
      h

pub read_availability :
    (d : Dates) (j : JsonText) (model : String) (runner : RunnerEntry) (now : ℕ) (stat : Stat)
    (readable : Bool) (file : List ℕ) (k : Quota) (r : Read)
    → availability_key_for model runner ≡ some k
    → read_records d j stat readable file ≡ some r
    → availability d j true model runner now stat readable file
      ≡ judge d now (keep (same_key k) r.records) (evidence_of r (keep (same_key k) r.records))
unfolding availability
read_availability d j model runner now stat readable file k r named read = ground arith

-- Where the records can be read, a candidate is exhausted exactly where a quota failure of its key is
-- recorded whose cooldown has not ended.
pub availability-exhausted :
    (d : Dates) (j : JsonText) (model : String) (runner : RunnerEntry) (now : ℕ) (stat : Stat)
    (readable : Bool) (file : List ℕ) (k : Quota) (r : Read) (a : CandidateAvailability)
    → availability_key_for model runner ≡ some k
    → read_records d j stat readable file ≡ some r
    → availability d j true model runner now stat readable file ≡ some a
    → (a.status ≡ known_exhausted)
      ↔ (any (λ e. same_key k e && is_active_quota d now e) r.records ≡ true)
availability-exhausted d j model runner now stat readable file k r a named read h =
    let judged =
      judge_status d now (keep (same_key k) r.records) _ a
        (sym (read_availability d j model runner now stat readable file k r named read) ∙ h) in
    subst (λ b. (a.status ≡ known_exhausted) ↔ (b ≡ true))
      (any-keep-keep (is_active_quota d now) (same_key k) r.records) judged
