-- ===== src/Routing/Route.antt =====
-- src/router.ts: `routeTask`.
use herdr_tools.Base.{
  Bool, true, false, not, ◌&&◌, String, ◌==◌, List, [], ◌∷◌, Option, none, some, all, find, map,
  ltb, eqb, keep, length, if◌then◌else◌,
}
use herdr_tools.Base.Dict.{Dict}
use herdr_tools.Routing.Tiers.{QualityTier, effective_start_tier}
use herdr_tools.Routing.Ranking.{ChainExclusion, recovery_excluded}
use herdr_tools.Routing.Judgment.{Numbers, Response, Judged, rejects, abstains, judged, judge}
use herdr_tools.Routing.Chains.{
  Point, Catalog, Status, local_capacity_limited, AbstainReason, no_candidates_at_tier,
  catalog_unavailable, invalid_response, transport_failed, Recovery, chain_ids, point_by_id,
  resolve, recovery_minimum, Gated, left_out, Scan, stopped, scanned, scan,
}

-- What the compilation of the selected point gives, which the route only passes on.
pub data Compiled (C : Type 0) : Type 0 where
  contract : C → Compiled C
  -- `INVALID_SELECTION` or `SELECTION_OUTSIDE_POOL`, and any other failure.
  selection_refused compile_failed : Compiled C

pub record Input (N : Numbers) (C : Type 0) : Type 1 where
  pub response : Response N
  pub catalog : Catalog
  -- The caller's explicit request.
  pub tier : Option QualityTier
  pub recovery : Option Recovery
  pub operating_point : Option String
  -- Whether a root or a gate of the caller is given.
  pub has_gate : Bool
  -- The availability gate, `none` where it throws, and the compilation.
  pub availability : Point → Option Status
  pub compile : Point → Compiled C

pub record Admission (N : Numbers) (C : Type 0) : Type 0 where
  pub workload_floor : QualityTier
  pub effective_start : QualityTier
  pub chain : List String
  pub selected : Point
  pub configuration : C
  pub exclusions : List ChainExclusion
  pub statuses : Dict Status

-- `SpecDecision`; the evidence of an abstention is not kept.
pub data Decision (N : Numbers) (C : Type 0) : Type 0 where
  admitted : Admission N C → Decision N C
  rejected : N.Number → Decision N C
  abstained : AbstainReason → Option String → Decision N C

abbrev pub other_provider : String → Point → Bool
other_provider provider p = not (p.provider == provider)

abbrev pub same_provider : String → Point → Bool
same_provider provider p = p.provider == provider

abbrev pub start_gated : List ChainExclusion → Gated
start_gated excluded = record {
  statuses = [];
  exhausted_quotas = [];
  local_runners = [];
  exclusions = excluded;
  available = [];
}

abbrev is_local : Status → Bool
is_local local_capacity_limited = true
is_local _ = false

abbrev all_local : Dict Status → Bool
all_local d = ltb 0 (length d) && all (λ (e : String × Status). is_local e.1) d

-- The point to start: the first available one, or the one that is asked for.
unfoldable pub select : Option String → List Point → Option Point
select none [] = none
select none (p ∷ ps) = some p
select (some id) ps = find (λ (p : Point). p.id == id) ps

abbrev pub chain_of : Option String → Point → List Point → List String
chain_of none p available = map (λ (q : Point). q.id) available
chain_of (some id) p available = p.id ∷ []

module _ {N : Numbers} {C : Type 0} where
  unfoldable pub admit :
      Input N C → QualityTier → QualityTier → Gated → Point → Compiled C → Decision N C
  admit i floor start g p (contract c) = admitted (record {
    workload_floor = floor;
    effective_start = start;
    chain = chain_of i.operating_point p g.available;
    selected = p;
    configuration = c;
    exclusions = g.exclusions;
    statuses = g.statuses;
  })
  admit i floor start g p selection_refused = abstained invalid_response (some "candidates")
  admit i floor start g p compile_failed = abstained catalog_unavailable (some "configuration")

  unfoldable pub after_select :
      Input N C → QualityTier → QualityTier → Gated → Option Point → Decision N C
  unfolding admit
  after_select i floor start g none = abstained no_candidates_at_tier (some "operatingPoint")
  after_select i floor start g (some p) = admit i floor start g p (i.compile p)

  -- What follows the availability loop.
  unfoldable pub after_scan : Input N C → QualityTier → QualityTier → Scan → Decision N C
  unfolding select after_select
  after_scan i floor start (stopped catalog_unavailable) =
      abstained catalog_unavailable (some "catalog")
  after_scan i floor start (stopped why) = abstained why (some "availability")
  after_scan i floor start (scanned g) =
      if eqb (length g.available) 0
      then if all_local g.statuses
        then abstained transport_failed (some "availability")
        else abstained no_candidates_at_tier none
      else after_select i floor start g (select i.operating_point g.available)

  unfoldable pub gate_candidates :
      Input N C → QualityTier → QualityTier → List Point → List ChainExclusion → Decision N C
  unfolding scan after_scan
  gate_candidates i floor start candidates excluded =
      if eqb (length candidates) 0
      then abstained no_candidates_at_tier none
      else if not i.has_gate
      then abstained transport_failed (some "availability")
      else after_scan i floor start
          (scan i.catalog.has_runner i.availability candidates (start_gated excluded))

  -- The failed provider of a recovery is excluded.
  unfoldable pub without_failed :
      Input N C → QualityTier → QualityTier → List Point → Option Point → Decision N C
  unfolding gate_candidates
  without_failed i floor start candidates none = abstained catalog_unavailable (some "recovery")
  without_failed i floor start candidates (some failed) =
      gate_candidates i floor start (keep (other_provider failed.provider) candidates)
        (map (left_out recovery_excluded) (keep (same_provider failed.provider) candidates))

  unfoldable pub recover_candidates :
      Input N C → QualityTier → QualityTier → List Point → Option Recovery → Decision N C
  unfolding without_failed gate_candidates point_by_id
  recover_candidates i floor start candidates none = gate_candidates i floor start candidates []
  recover_candidates i floor start candidates (some r) =
      without_failed i floor start candidates (point_by_id r.prior_operating_point i.catalog.points)

  unfoldable pub resolved :
      Input N C → QualityTier → QualityTier → Option (List Point) → Decision N C
  unfolding recover_candidates
  resolved i floor start none = abstained catalog_unavailable (some "tierChains")
  resolved i floor start (some candidates) = recover_candidates i floor start candidates i.recovery

  unfoldable pub route_chains :
      Input N C → QualityTier → Option (QualityTier → List String) → Decision N C
  unfolding effective_start_tier recovery_minimum resolve chain_ids resolved
  route_chains i floor none = abstained catalog_unavailable (some "tierChains")
  route_chains i floor (some chains) =
      if eqb (length i.catalog.points) 0
      then abstained catalog_unavailable (some "tierChains")
      else let start = effective_start_tier floor i.tier (recovery_minimum i.recovery) in
        resolved i floor start (resolve i.catalog.points (chain_ids chains start))

  unfoldable pub route_judged : Input N C → Judged N → Decision N C
  unfolding route_chains
  route_judged i (rejects p) = rejected p
  route_judged i (abstains why component) = abstained why (some component)
  route_judged i (judged p intent tier) = route_chains i tier.value i.catalog.tier_chains

  -- `routeTask`.
  unfoldable pub route_task : Input N C → Decision N C
  unfolding judge route_judged
  route_task i = route_judged i (judge N i.response)
