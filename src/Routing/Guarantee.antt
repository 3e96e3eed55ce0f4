-- ===== src/Routing/Guarantee.antt =====
-- The guarantee of an admission of src/router.ts, from the response to the selected point.
use herdr_tools.Base.{
  ◌≡◌, refl, ◌≢◌, String, List, [], ◌∷◌, Option, none, some, arith, All, map, sym, subst, eq_refl,
  keep,
}
use herdr_tools.Routing.Tiers.{QualityTier, effective_start_tier}
use herdr_tools.Routing.Points.{WorkloadIntent}
use herdr_tools.Routing.Ranking.{recovery_excluded}
use herdr_tools.Routing.Judgment.{Numbers, judged, judge, Evidence}
use herdr_tools.Routing.Chains.{
  Point, Recovery, resolve, point_by_id, chain_ids, recovery_minimum, left_out, and_then,
}
use herdr_tools.Routing.Scanned.{IsOpen}
use herdr_tools.Routing.Route.{
  Input, Admission, contract, admitted, without_failed, recover_candidates, resolved, route_chains,
  route_judged, route_task, other_provider, same_provider,
}
use herdr_tools.Routing.Admitted.{
  OnDecision, OnDecision-admitted, IsSound, gate_candidates-IsSound, IsElsewhere, IsListed,
  IsWanted, keep-All, All-mono, point_by_id-id,
}

and_then-some :
    (o : Option Point) (r : Option (List Point)) (ps : List Point)
    → and_then o r ≡ some ps
    → (p : Point) × (qs : List Point) × (o ≡ some p) × (r ≡ some qs) × ((p ∷ qs) ≡ ps)
and_then-some none r ps h = absurd (ground arith)
and_then-some (some p) none ps h = absurd (ground arith)
and_then-some (some p) (some qs) ps h = (p, qs, refl, refl, ground arith)

IsListed-weaken :
    (points : List Point) (id : String) (ids : List String) (p : Point)
    → IsListed points ids p
    → IsListed points (id ∷ ids) p
unfolding IsListed
IsListed-weaken points id ids p (a, b) = (ground arith, b)

IsListed-head :
    (points : List Point) (id : String) (ids : List String) (p : Point)
    → point_by_id id points ≡ some p
    → IsListed points (id ∷ ids) p
unfolding IsListed
IsListed-head points id ids p e =
    let named : p.id ≡ id = point_by_id-id id points p e in
    (ground (arith, eq_refl id), subst (λ x. point_by_id x points ≡ some p) (sym named) e)

resolve-All :
    (points : List Point) (ids : List String) (ps : List Point)
    → resolve points ids ≡ some ps
    → All (IsListed points ids) ps
unfolding resolve
resolve-All points [] ps h =
    let same : [] ≡ ps = ground arith in subst (λ x. All (IsListed points []) x) same tt
resolve-All points (id ∷ ids) ps h =
    let (p, qs, e, e', same) = and_then-some (point_by_id id points) (resolve points ids) ps h in
    subst (λ x. All (IsListed points (id ∷ ids)) x) same
      (
        IsListed-head points id ids p e,
        All-mono (IsListed points ids) (IsListed points (id ∷ ids)) (IsListed-weaken points id ids)
            qs (resolve-All points ids qs e'),
      )

IsElsewhere-none : (points : List Point) (p : Point) → IsElsewhere points none p
unfolding IsElsewhere
IsElsewhere-none points p = tt

IsElsewhere-some :
    (points : List Point) (r : Recovery) (p failed : Point)
    → point_by_id r.prior_operating_point points ≡ some failed
    → p.provider ≢ failed.provider
    → IsElsewhere points (some r) p
unfolding IsElsewhere
IsElsewhere-some points r p failed f n = (failed, f, n)

module _ {N : Numbers} {C : Type 0} (i : Input N C) (floor : QualityTier) where
  -- A point of the chains from the start tier on, and not of the failed provider of a recovery.
  abbrev pub IsCandidate : (QualityTier → List String) → QualityTier → Point → Type 0
  IsCandidate chains start p =
      IsListed i.catalog.points (chain_ids chains start) p
      × IsElsewhere i.catalog.points i.recovery p

  without_failed-IsSound :
      (start : QualityTier) (L : Point → Type 0) (r : Recovery) (ps : List Point)
      (failed : Option Point)
      → i.recovery ≡ some r
      → point_by_id r.prior_operating_point i.catalog.points ≡ failed
      → All L ps
      → OnDecision
          (IsSound i floor start (λ p. L p × IsElsewhere i.catalog.points i.recovery p))
          (without_failed i floor start ps failed)
  unfolding without_failed OnDecision
  without_failed-IsSound start L r ps none e f a = tt
  without_failed-IsSound start L r ps (some failed) e f a =
      gate_candidates-IsSound i floor start (λ p. L p × IsElsewhere i.catalog.points i.recovery p)
        (keep (other_provider failed.provider) ps)
        (map (left_out recovery_excluded) (keep (same_provider failed.provider) ps))
        (All-mono (λ p. L p × (p.provider ≢ failed.provider))
          (λ p. L p × IsElsewhere i.catalog.points i.recovery p)
          (λ p (l, n). (
            l,
            subst (λ x. IsElsewhere i.catalog.points x p) (sym e)
                (IsElsewhere-some i.catalog.points r p failed f n),
          ))
          (keep (other_provider failed.provider) ps) (keep-All L failed.provider ps a))

  recover_candidates-IsSound :
      (start : QualityTier) (L : Point → Type 0) (ps : List Point) (r : Option Recovery)
      → i.recovery ≡ r
      → All L ps
      → OnDecision
          (IsSound i floor start (λ p. L p × IsElsewhere i.catalog.points i.recovery p))
          (recover_candidates i floor start ps r)
  unfolding recover_candidates
  recover_candidates-IsSound start L ps none e a =
      gate_candidates-IsSound i floor start (λ p. L p × IsElsewhere i.catalog.points i.recovery p)
        ps []
        (All-mono L (λ p. L p × IsElsewhere i.catalog.points i.recovery p)
          (λ p l. (
            l,
            subst (λ x. IsElsewhere i.catalog.points x p) (sym e)
                (IsElsewhere-none i.catalog.points p),
          ))
          ps a)
  recover_candidates-IsSound start L ps (some r) e a =
      without_failed-IsSound start L r ps (point_by_id r.prior_operating_point i.catalog.points) e
        refl a

  resolved-IsSound :
      (start : QualityTier) (chains : QualityTier → List String) (found : Option (List Point))
      → resolve i.catalog.points (chain_ids chains start) ≡ found
      → OnDecision (IsSound i floor start (IsCandidate chains start)) (resolved i floor start found)
  unfolding resolved OnDecision
  resolved-IsSound start chains none e = tt
  resolved-IsSound start chains (some ps) e =
      recover_candidates-IsSound start (IsListed i.catalog.points (chain_ids chains start)) ps
        i.recovery refl (resolve-All i.catalog.points (chain_ids chains start) ps e)

  -- The tier at which the search starts.
  abbrev pub start_tier : QualityTier
  start_tier = effective_start_tier floor i.tier (recovery_minimum i.recovery)

  route_chains-IsSound :
      (chains : QualityTier → List String)
      → OnDecision
          (IsSound i floor start_tier (IsCandidate chains start_tier))
          (route_chains i floor (some chains))
  unfolding route_chains OnDecision
  route_chains-IsSound chains =
      let s =
        resolved-IsSound start_tier chains (resolve i.catalog.points (chain_ids chains start_tier))
          refl in
      ground arith

-- An admission starts the search at the effective start tier of the judged floor, the request and
-- the recovery minimum. Its point is the one that is asked for, alone in the chain, or the first of
-- the chain; it is a point of the catalog, in the chains from that tier on, not of the provider of a
-- failed point on recovery, let through by the availability gate, and compiled to the configuration.
pub route_guarantee :
    {N : Numbers} {C : Type 0} (i : Input N C) (chains : QualityTier → List String) (p : N.Number)
    (intent : Evidence N WorkloadIntent) (tier : Evidence N QualityTier) (a : Admission N C)
    → i.catalog.tier_chains ≡ some chains
    → judge N i.response ≡ judged p intent tier
    → route_task i ≡ admitted a
    → let start = effective_start_tier tier.value i.tier (recovery_minimum i.recovery) in
      (a.workload_floor ≡ tier.value)
      × (a.effective_start ≡ start)
      × IsWanted i.operating_point a.selected.id a.chain
      × (IsListed i.catalog.points (chain_ids chains start) a.selected
          × IsElsewhere i.catalog.points i.recovery a.selected)
      × IsOpen i.availability a.selected
      × (i.compile a.selected ≡ contract a.configuration)
unfolding route_task route_judged IsSound
route_guarantee i chains p intent tier a c j h =
    OnDecision-admitted
      (IsSound i tier.value (start_tier i tier.value)
        (IsCandidate i tier.value chains (start_tier i tier.value)))
      (route_chains i tier.value (some chains)) a (cc (c, j, h))
      (route_chains-IsSound i tier.value chains)
