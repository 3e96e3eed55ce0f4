-- ===== src/Availability/Reset.antt =====
-- The reset that `availability` of src/availability.ts reports.
use herdr_tools.Base.{
  ℕ, ◌≤◌, ◌<◌, ◌≡◌, Bool, true, String, List, [], ◌∷◌, some, any, keep, eqb, arith, All,
  option_rule, Bool-cases, inl, inr,
}
use herdr_tools.Availability.{Dates, CooldownRecord, cooldown_expiry_ms}
use herdr_tools.Availability.Log.{is_active_quota, signaled}

active_after :
    (d : Dates) (now : ℕ) (e : CooldownRecord) (s : String) (ms : ℕ)
    → e.retry_not_before ≡ some s
    → d.parse_date s ≡ some ms
    → is_active_quota d now e ≡ true
    → now < ms
unfolding is_active_quota cooldown_expiry_ms
active_after d now e s ms signaled_at read active = ground arith

-- A signal of an active cooldown is still to come.
future :
    (d : Dates) (now : ℕ) (rs : List CooldownRecord)
    → All (λ ms. now < ms) (signaled d (keep (is_active_quota d now) rs))
unfolding signaled
future d now [] = tt
future d now (e ∷ es) = elim (Bool-cases (is_active_quota d now e)) [
  | inl active ↦
      let later = future d now es in
      rw active (
        option_rule (λ ns. All (λ ms. now < ms) ns) e.retry_not_before _ _ (λ silent. later)
          (λ s signaled_at.
            option_rule (λ ns. All (λ ms. now < ms) ns) (d.parse_date s) _ _ (λ unread. later)
              (λ ms read. (active_after d now e s ms signaled_at read active, later))))
  | inr over ↦ rw over (future d now es)
]

abbrev among : ℕ → List ℕ → Bool
among n ns = any (λ m. eqb m n) ns

-- The instant that is reported: a future one, signaled by an active quota record, and the latest such.
pub record IsReset (d : Dates) (now : ℕ) (rs : List CooldownRecord) (s : String) : Type 0 where
  pub at : ℕ
  pub written : d.iso at ≡ some s
  pub future : now < at
  pub signal : among at (signaled d (keep (is_active_quota d now) rs)) ≡ true
  pub newest : All (λ ms. ms ≤ at) (signaled d (keep (is_active_quota d now) rs))
