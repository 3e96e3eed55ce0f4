-- ===== src/Availability/Answers.antt =====
-- `availability` of src/availability.ts answers, and with an active quota record it answers exhausted.
use herdr_tools.Base.{
  ℕ, ◌≡◌, refl, ◌∙◌, true, not, ◌&&◌, String, List, [], ◌∷◌, Option, some, any, keep, length, eqb,
  ltb, arith, All, if_rule, option_rule,
}
use herdr_tools.Routing.Chains.{Quota, known_exhausted}
use herdr_tools.Availability.{Dates, CooldownRecord}
use herdr_tools.Availability.Keys.{RunnerEntry, availability_key_for}
use herdr_tools.Availability.Log.{
  JsonText, trusted, Read, Evidence, CandidateAvailability, split_lines, read_lines, read_records,
  same_key, is_active_quota, is_recent, is_transport, signaled, latest, exhausted, judge,
  availability,
}
use herdr_tools.Availability.Judged.{read_availability, availability-exhausted}

-- Every instant that `Date.parse` gives is in the range of `toISOString`.
abbrev pub InRange : Dates → Type 0
InRange d = (s : String) (ms : ℕ) → d.parse_date s ≡ some ms → (t : String) × (d.iso ms ≡ some t)

abbrev Writable : Dates → ℕ → Type 0
Writable d ms = (t : String) × (d.iso ms ≡ some t)

signaled-Writable :
    (d : Dates) (rs : List CooldownRecord) → InRange d → All (Writable d) (signaled d rs)
unfolding signaled
signaled-Writable d [] w = tt
signaled-Writable d (e ∷ es) w =
    let rest = signaled-Writable d es w in
    option_rule (All (Writable d)) e.retry_not_before _ _ (λ silent. rest)
      (λ s at.
        option_rule (All (Writable d)) (d.parse_date s) _ _ (λ unread. rest)
          (λ ms read. (w s ms read, rest)))

latest-All {κ} : (P : ℕ → Type κ) (m : ℕ) (ns : List ℕ) → P m → All P ns → P (latest m ns)
unfolding latest
latest-All P m [] p q = p
latest-All P m (n ∷ ns) p (r, q) =
    if_rule (λ x. P (latest x ns)) (ltb m n) _ _ (λ less. latest-All P n ns r q)
      (λ more. latest-All P m ns p q)

-- Something is answered.
abbrev Answers : Option CandidateAvailability → Type 0
Answers o = (a : CandidateAvailability) × (o ≡ some a)

exhausted-Answers :
    (d : Dates) (ns : List ℕ) (e : Evidence) → All (Writable d) ns → Answers (exhausted d ns e)
unfolding exhausted
exhausted-Answers d [] e w = (_, refl)
exhausted-Answers d (n ∷ ns) e (p, q) =
    let (t, written) = latest-All (Writable d) n ns p q in
    option_rule Answers (d.iso (latest n ns)) _ _ (λ h. absurd (ground arith)) (λ s h. (_, refl))

judge-Answers :
    (d : Dates) (now : ℕ) (rs : List CooldownRecord) (e : Evidence)
    → InRange d
    → Answers (judge d now rs e)
unfolding judge
judge-Answers d now rs e w =
    let active = keep (is_active_quota d now) rs in
    let recent = keep (is_recent d now) rs in
    if_rule Answers (not (eqb (length active) 0)) _ _
      (λ c. exhausted-Answers d (signaled d active) e (signaled-Writable d active w))
      (λ c.
        if_rule Answers (any (λ (x : CooldownRecord). is_transport x.failure_class) recent) _ _
          (λ l. (_, refl))
          (λ p.
            if_rule Answers (not (eqb (length recent) 0)) _ _ (λ s. (_, refl)) (λ n. (_, refl))))

-- The records of a readable file.
abbrev pub read_of : Dates → JsonText → List ℕ → Read
read_of d j file = read_lines d j (split_lines file)

pub active_answers :
    (d : Dates) (j : JsonText) (model : String) (runner : RunnerEntry) (now : ℕ) (file : List ℕ)
    (k : Quota)
    → InRange d
    → availability_key_for model runner ≡ some k
    → any (λ e. same_key k e && is_active_quota d now e) (read_of d j file).records ≡ true
    → (a : CandidateAvailability) × (availability d j true model runner now trusted true file
        ≡ some a)
      × (a.status ≡ known_exhausted)
unfolding read_records
active_answers d j model runner now file k w named active =
    let r = read_of d j file in
    let whole = read_availability d j model runner now trusted true file k r named refl in
    let (a, judged) = judge-Answers d now (keep (same_key k) r.records) _ w in
    let given = whole ∙ judged in
    (
      a,
      given,
      (availability-exhausted d j model runner now trusted true file k r a named refl given).1
          active,
    )
