-- ===== src/Routing/Ranking.antt =====
-- src/routing-policy.ts: the ranking of scored operating points for a tier.
use herdr_tools.Base.{
  ℕ, Bool, not, ◌&&◌, ◌||◌, String, ◌==◌, List, [], ◌∷◌, ◌++◌, any, keep, eqb, ltb, text_before,
  map, length, if◌then◌else◌,
}
use herdr_tools.Base.Sort.{sort}
use herdr_tools.Routing.Tiers.{QualityTier}
use herdr_tools.Routing.Points.{CostClass, class_rank, bound_rank, tier_envelope}

-- `ScoredOperatingPoint`; a fitness is only compared.
pub record ScoredPoint : Type 0 where
  pub id : String
  pub provider : String
  pub cost_class : CostClass
  pub latency_class : CostClass
  pub fitness_by_tier : QualityTier → ℕ

pub data ExclusionReason : Type 0 where
  cost_class_exceeded latency_class_exceeded attempt_bound point_unavailable required_resource
        recovery_excluded :
      ExclusionReason

pub record ChainExclusion : Type 0 where
  pub id : String
  pub provider : String
  pub reasons : List ExclusionReason

pub record RankedCandidates : Type 0 where
  pub ordered : List ScoredPoint
  pub excluded : List ChainExclusion

abbrev cost_reasons : QualityTier → ScoredPoint → List ExclusionReason
cost_reasons tier p =
    if ltb (bound_rank (tier_envelope tier).max_cost_class) (class_rank p.cost_class)
    then cost_class_exceeded ∷ []
    else []

abbrev latency_reasons : QualityTier → ScoredPoint → List ExclusionReason
latency_reasons tier p =
    if ltb (bound_rank (tier_envelope tier).max_latency_class) (class_rank p.latency_class)
    then latency_class_exceeded ∷ []
    else []

-- Why a point is outside the envelope of the tier.
unfoldable pub envelope_reasons : QualityTier → ScoredPoint → List ExclusionReason
unfolding bound_rank tier_envelope class_rank
envelope_reasons tier p = cost_reasons tier p ++ latency_reasons tier p

abbrev pub is_eligible : QualityTier → ScoredPoint → Bool
is_eligible tier p = eqb (length (envelope_reasons tier p)) 0

-- The higher fitness first, then the smaller identifier.
unfoldable pub ranks_before : QualityTier → ScoredPoint → ScoredPoint → Bool
unfolding text_before
ranks_before tier a b =
    ltb (b.fitness_by_tier tier) (a.fitness_by_tier tier)
    || (eqb (b.fitness_by_tier tier) (a.fitness_by_tier tier) && text_before a.id b.id)

abbrev pub contains : String → List String → Bool
contains x xs = any (λ y. y == x) xs

-- The first loop: the best ranked point of each provider.
unfoldable pub first_of_providers : List String → List ScoredPoint → List ScoredPoint
first_of_providers seen [] = []
first_of_providers seen (p ∷ ps) =
    let skipped = first_of_providers seen ps in
    let taken = first_of_providers (p.provider ∷ seen) ps in
    if contains p.provider seen then skipped else p ∷ taken

-- The second loop: the points whose identifier is not chosen yet.
unfoldable pub not_chosen : List String → List ScoredPoint → List ScoredPoint
not_chosen chosen [] = []
not_chosen chosen (p ∷ ps) =
    let skipped = not_chosen chosen ps in
    let taken = not_chosen (p.id ∷ chosen) ps in if contains p.id chosen then skipped else p ∷ taken

abbrev exclusion_before : ChainExclusion → ChainExclusion → Bool
exclusion_before a b = text_before a.id b.id

abbrev pub ordered_points : List ScoredPoint → List ScoredPoint
ordered_points ranked =
    let firsts = first_of_providers [] ranked in
    firsts ++ not_chosen (map (λ (p : ScoredPoint). p.id) firsts) ranked

abbrev exclusion_of : QualityTier → ScoredPoint → ChainExclusion
exclusion_of tier p = record { id = p.id; provider = p.provider; reasons = envelope_reasons tier p }

-- `rankFallbackCandidates`.
unfoldable pub rank_fallback_candidates : List ScoredPoint → QualityTier → RankedCandidates
unfolding envelope_reasons ranks_before sort first_of_providers not_chosen text_before
rank_fallback_candidates points tier = record {
  ordered = ordered_points (sort (ranks_before tier) (keep (is_eligible tier) points));
  excluded =
      sort exclusion_before (map (exclusion_of tier) (keep (λ p. not (is_eligible tier p)) points));
}
