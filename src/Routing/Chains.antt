-- ===== src/Routing/Chains.antt =====
-- src/router.ts: the chains of the catalog, the recovery exclusion and the availability loop.
use herdr_tools.Base.{
  Bool, true, false, ◌||◌, String, ◌==◌, List, [], ◌∷◌, ◌++◌, Option, none, some, is_some, drop,
  if◌then◌else◌,
}
use herdr_tools.Base.Dict.{Dict, put}
use herdr_tools.Base.Joined.{nul_joined}
use herdr_tools.Routing.Tiers.{
  QualityTier, utility, economy, standard, strong, frontier, max, tier_rank, next_tier,
}
use herdr_tools.Routing.Ranking.{ChainExclusion, ExclusionReason, point_unavailable, contains}

pub record Quota : Type 0 where
  pub provider : String
  pub billing_product : String
  pub account : String
  pub scope : String

-- What the route reads of a point of the catalog.
pub record Point : Type 0 where
  pub id : String
  pub provider : String
  pub runner : String
  pub model : String
  pub quota : Quota

-- What the route reads of the catalog: `points`, `tierChains` and the names of `runners`.
pub record Catalog : Type 0 where
  pub points : List Point
  pub tier_chains : Option (QualityTier → List String)
  pub has_runner : String → Bool

-- `CandidateAvailability.status`.
pub data Status : Type 0 where
  unknown_status known_exhausted local_capacity_limited degraded : Status

pub data AbstainReason : Type 0 where
  no_candidates_at_tier catalog_unavailable invalid_response transport_failed : AbstainReason

pub record Recovery : Type 0 where
  pub prior_operating_point : String
  pub prior_route_tier : QualityTier
  pub provider_limited : Bool

-- `quotaIdentity`.
unfoldable pub quota_identity : Point → String
unfolding nul_joined
quota_identity p =
    nul_joined p.quota.provider
      (nul_joined p.quota.billing_product (nul_joined p.quota.account p.quota.scope))

abbrev pub all_tiers : List QualityTier
all_tiers = utility ∷ economy ∷ standard ∷ strong ∷ frontier ∷ max ∷ []

unfoldable pub chained : (QualityTier → List String) → List QualityTier → List String
chained chains [] = []
chained chains (t ∷ ts) = chains t ++ chained chains ts

-- `new Set(…)`: the first of each.
unfoldable pub unique : List String → List String → List String
unique seen [] = []
unique seen (x ∷ xs) =
    let skipped = unique seen xs in
    let taken = unique (x ∷ seen) xs in if contains x seen then skipped else x ∷ taken

-- The chains of the start tier and every stronger one.
unfoldable pub chain_ids : (QualityTier → List String) → QualityTier → List String
unfolding chained unique tier_rank
chain_ids chains start = unique [] (chained chains (drop (tier_rank start) all_tiers))

-- `pointById`: a later point replaces an earlier one of the same identifier.
unfoldable pub point_by_id : String → List Point → Option Point
point_by_id id [] = none
point_by_id id (p ∷ ps) =
    let later = point_by_id id ps in
    if is_some later then later else if p.id == id then some p else none

abbrev pub and_then : Option Point → Option (List Point) → Option (List Point)
and_then (some p) (some ps) = some (p ∷ ps)
and_then _ _ = none

-- The points of the identifiers, or nothing where one is missing.
unfoldable pub resolve : List Point → List String → Option (List Point)
unfolding point_by_id
resolve points [] = some []
resolve points (id ∷ ids) = and_then (point_by_id id points) (resolve points ids)

-- The recovery minimum.
unfoldable pub recovery_minimum : Option Recovery → Option QualityTier
unfolding next_tier
recovery_minimum none = none
recovery_minimum (some r) =
    some (if r.provider_limited then r.prior_route_tier else next_tier r.prior_route_tier)

-- The state of the loop over the candidates.
pub record Gated : Type 0 where
  pub statuses : Dict Status
  pub exhausted_quotas : List String
  pub local_runners : List String
  pub exclusions : List ChainExclusion
  pub available : List Point

abbrev pub left_out : ExclusionReason → Point → ChainExclusion
left_out why p = record { id = p.id; provider = p.provider; reasons = why ∷ [] }

abbrev pub exclude : Point → Gated → Gated
exclude p g = record g { exclusions = g.exclusions ++ left_out point_unavailable p ∷ [] }

-- What one answer of the availability gate changes.
unfoldable pub observe : Point → Status → Gated → Gated
unfolding quota_identity
observe p known_exhausted g = exclude p (record g {
  statuses = put p.id known_exhausted g.statuses;
  exhausted_quotas = quota_identity p ∷ g.exhausted_quotas;
})
observe p local_capacity_limited g = exclude p (record g {
  statuses = put p.id local_capacity_limited g.statuses;
  local_runners = p.runner ∷ g.local_runners;
})
observe p unknown_status g = record g {
  statuses = put p.id unknown_status g.statuses;
  available = g.available ++ p ∷ [];
}
observe p degraded g = record g {
  statuses = put p.id degraded g.statuses;
  available = g.available ++ p ∷ [];
}

abbrev pub is_skipped : Point → Gated → Bool
is_skipped p g = contains (quota_identity p) g.exhausted_quotas || contains p.runner g.local_runners

pub data Scan : Type 0 where
  stopped : AbstainReason → Scan
  scanned : Gated → Scan

-- The loop of `routeTask` over the candidates; `gate` fails where it throws.
unfoldable pub scan : (String → Bool) → (Point → Option Status) → List Point → Gated → Scan
unfolding observe quota_identity
scan has_runner gate [] g = scanned g
scan has_runner gate (p ∷ ps) g = elim (is_skipped p g) [
  | true ↦ scan has_runner gate ps (exclude p g)
  | false ↦ elim (has_runner p.runner) [
    | false ↦ stopped catalog_unavailable
    | true ↦ elim (gate p) [
      | none ↦ stopped transport_failed
      | some status ↦ scan has_runner gate ps (observe p status g)
    ]
  ]
]
