-- ===== src/Routing/Starts.antt =====
-- The start tier and the recovery interval of src/routing-policy.ts.
use herdr_tools.Base.{
  ℕ, zero, suc, ap, ◌+◌, ◌≤◌, ◌≡◌, refl, Option, none, some, arith, inl, inr, ◌⊎◌, min, length,
}
use herdr_tools.Routing.Tiers.{
  QualityTier, utility, economy, standard, strong, frontier, max, tier_rank, max_tier, tier_at,
  nth_tier, next_tier, effective_start_tier, requested_start,
}
use herdr_tools.Routing.Points.{
  WorkloadProfile, resolve_tier_policy, difficult_modifiers, intent_interval, WorkspaceState,
  raised_ceiling, clean, partial, failed, WorkloadIntent, explore, reason, implement, debug, verify,
  review, coordinate, unknown_intent,
}

tier_rank_le : (t : QualityTier) → tier_rank t ≤ 5
unfolding tier_rank
tier_rank_le utility = ground arith
tier_rank_le economy = ground arith
tier_rank_le standard = ground arith
tier_rank_le strong = ground arith
tier_rank_le frontier = ground arith
tier_rank_le max = ground arith

-- The maximum of two tiers is above both and is one of them.
pub max_tier_lub :
    (a b : QualityTier)
    → (tier_rank a ≤ tier_rank (max_tier a b))
      × (tier_rank b ≤ tier_rank (max_tier a b))
      × ((max_tier a b ≡ a) ⊎ (max_tier a b ≡ b))
unfolding max_tier
max_tier_lub a b = ground arith

pub next_tier_rank : (t : QualityTier) → tier_rank (next_tier t) ≡ min (tier_rank t + 1) 5
unfolding next_tier tier_rank
next_tier_rank utility = refl
next_tier_rank economy = refl
next_tier_rank standard = refl
next_tier_rank strong = refl
next_tier_rank frontier = refl
next_tier_rank max = refl

requested_start_window :
    (floor : QualityTier) (requested : Option QualityTier)
    → (tier_rank floor ≤ tier_rank (requested_start floor requested))
      × (tier_rank (requested_start floor requested) ≤ tier_rank floor + 1)
unfolding requested_start
requested_start_window floor none = ground arith
requested_start_window floor (some r) =
    ground (arith, next_tier_rank floor, max_tier_lub floor r, max_tier_lub floor (next_tier floor))

-- The start tier is never below the floor, and it is at most one tier above the floor unless it is
-- the recovery minimum itself.
pub effective_start_window :
    (floor : QualityTier) (requested minimum : Option QualityTier)
    → (tier_rank floor ≤ tier_rank (effective_start_tier floor requested minimum))
      × ((tier_rank (effective_start_tier floor requested minimum) ≤ tier_rank floor + 1)
          ⊎ (some (effective_start_tier floor requested minimum) ≡ minimum))
unfolding effective_start_tier
effective_start_window floor requested none =
    let (a, b) = requested_start_window floor requested in (a, inl b)
effective_start_window floor requested (some m) =
    let (a, b) = requested_start_window floor requested in
    let (c, d, e) = max_tier_lub (requested_start floor requested) m in
    elim e [ inl x ↦ (ground arith, inl (rw x b)) | inr x ↦ (ground arith, inr (ap some x)) ]

-- The recovery minimum is a lower bound whatever the caller asks for.
pub effective_start_minimum :
    (floor minimum : QualityTier) (requested : Option QualityTier)
    → tier_rank minimum ≤ tier_rank (effective_start_tier floor requested (some minimum))
unfolding effective_start_tier
effective_start_minimum floor m requested =
    let (a, b, c) = max_tier_lub (requested_start floor requested) m in b

nth_tier_rank : (n : ℕ) → n ≤ 5 → tier_rank (nth_tier n) ≡ n
unfolding tier_rank
nth_tier_rank zero h = refl
nth_tier_rank (suc zero) h = refl
nth_tier_rank (suc (suc zero)) h = refl
nth_tier_rank (suc (suc (suc zero))) h = refl
nth_tier_rank (suc (suc (suc (suc zero)))) h = refl
nth_tier_rank (suc (suc (suc (suc (suc n))))) h = ground arith

tier_at_rank : (n : ℕ) → tier_rank (tier_at n) ≡ min n 5
unfolding tier_at
tier_at_rank n = nth_tier_rank (min n 5) (ground arith)

interval_ordered :
    (i : WorkloadIntent) → tier_rank (intent_interval i).0 ≤ tier_rank (intent_interval i).1
unfolding intent_interval tier_rank
interval_ordered explore = ground arith
interval_ordered reason = ground arith
interval_ordered implement = ground arith
interval_ordered debug = ground arith
interval_ordered verify = ground arith
interval_ordered review = ground arith
interval_ordered coordinate = ground arith
interval_ordered unknown_intent = ground arith

raised_ceiling_le :
    (w : WorkspaceState) (floor ceiling : QualityTier) (n : ℕ)
    → tier_rank floor ≤ tier_rank ceiling
    → tier_rank (tier_at (tier_rank floor + n)) ≤ tier_rank (raised_ceiling w ceiling n)
unfolding raised_ceiling
raised_ceiling_le failed floor ceiling n h = tier_rank_le (tier_at (tier_rank floor + n))
raised_ceiling_le clean floor ceiling n h =
    ground (arith, tier_at_rank (tier_rank floor + n), tier_at_rank (tier_rank ceiling + n))
raised_ceiling_le partial floor ceiling n h =
    ground (arith, tier_at_rank (tier_rank floor + n), tier_at_rank (tier_rank ceiling + n))

-- The interval resolved for a workload is one: its adjusted floor is at most its adjusted ceiling
-- and its start, its start and its adjusted ceiling are at most its effective ceiling, and its start
-- is at least the requested tier.
pub resolve_tier_policy_interval :
    (profile : WorkloadProfile) (requested : Option QualityTier)
    → let p = resolve_tier_policy profile requested in
      (tier_rank p.adjusted_floor ≤ tier_rank p.adjusted_ceiling)
      × (tier_rank p.adjusted_floor ≤ tier_rank p.effective_start)
      × (tier_rank p.requested_tier ≤ tier_rank p.effective_start)
      × (tier_rank p.effective_start ≤ tier_rank p.effective_ceiling)
      × (tier_rank p.adjusted_ceiling ≤ tier_rank p.effective_ceiling)
unfolding resolve_tier_policy
resolve_tier_policy_interval profile requested =
    let p = resolve_tier_policy profile requested in
    let (a, b, c) = max_tier_lub p.requested_tier p.adjusted_floor in
    let (d, e, f) = max_tier_lub p.adjusted_ceiling p.effective_start in
    (
      raised_ceiling_le profile.workspace_state (intent_interval profile.intent).0
          (intent_interval profile.intent).1 (length (difficult_modifiers profile))
          (interval_ordered profile.intent),
      b,
      a,
      e,
      d,
    )
