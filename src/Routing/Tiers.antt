-- ===== src/Routing/Tiers.antt =====
-- src/routing-policy.ts: the quality tiers, their order, and the start tier.
use herdr_tools.Base.{ℕ, zero, suc, ◌+◌, Option, none, some, leb, min, if◌then◌else◌}

-- `QUALITY_TIERS`, in ascending order.
pub data QualityTier : Type 0 where
  utility economy standard strong frontier max : QualityTier

unfoldable pub tier_rank : QualityTier → ℕ
tier_rank utility = 0
tier_rank economy = 1
tier_rank standard = 2
tier_rank strong = 3
tier_rank frontier = 4
tier_rank max = 5

-- `maxTier`: the first one where the two are equal.
unfoldable pub max_tier : QualityTier → QualityTier → QualityTier
unfolding tier_rank
max_tier a b = if leb (tier_rank b) (tier_rank a) then a else b

abbrev pub nth_tier : ℕ → QualityTier
nth_tier zero = utility
nth_tier (suc zero) = economy
nth_tier (suc (suc zero)) = standard
nth_tier (suc (suc (suc zero))) = strong
nth_tier (suc (suc (suc (suc zero)))) = frontier
nth_tier (suc (suc (suc (suc (suc n))))) = max

-- `tierAt`: clamped at `max`.
unfoldable pub tier_at : ℕ → QualityTier
tier_at rank = nth_tier (min rank 5)

unfoldable pub next_tier : QualityTier → QualityTier
unfolding tier_rank
next_tier tier = nth_tier (min (tier_rank tier + 1) 5)

-- What the caller's request gives, at most one tier above the floor and never below it.
unfoldable pub requested_start : QualityTier → Option QualityTier → QualityTier
unfolding next_tier max_tier tier_rank
requested_start floor none = floor
requested_start floor (some requested) =
    max_tier floor (
      if leb (tier_rank requested) (tier_rank (next_tier floor))
      then requested
      else next_tier floor)

-- `effectiveStartTier`.
unfoldable pub effective_start_tier :
    QualityTier → Option QualityTier → Option QualityTier → QualityTier
unfolding requested_start max_tier
effective_start_tier floor requested none = requested_start floor requested
effective_start_tier floor requested (some minimum) =
    max_tier (requested_start floor requested) minimum
