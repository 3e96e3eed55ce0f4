-- ===== src/Routing/Admitted.antt =====
-- What an admission of `routeTask` of src/router.ts guarantees.
use herdr_tools.Base.{
  ◌≡◌, refl, ◌≢◌, inl, inr, Bool, true, String, ◌==◌, List, [], ◌∷◌, Option, none, some, arith, All,
  map, Bool-cases, subst, ap, find, eq_iff, keep,
}
use herdr_tools.Routing.Tiers.{QualityTier}
use herdr_tools.Routing.Ranking.{ChainExclusion, contains}
use herdr_tools.Routing.Judgment.{Numbers}
use herdr_tools.Routing.Chains.{
  Point, Recovery, Gated, Scan, stopped, scanned, scan, point_by_id, catalog_unavailable,
  transport_failed, no_candidates_at_tier, invalid_response,
}
use herdr_tools.Routing.Scanned.{IsOpen, IsAdmissible, scan-All}
use herdr_tools.Routing.Route.{
  Input, Admission, Compiled, contract, selection_refused, compile_failed, Decision, admitted,
  rejected, abstained, select, admit, after_select, start_gated, chain_of, other_provider,
  after_scan, gate_candidates,
}

find-All {κ} :
    (R : Point → Type κ) (t : Point → Bool) (ps : List Point) (p : Point)
    → find t ps ≡ some p
    → All R ps
    → R p
find-All R t [] p h a = ground arith
find-All R t (x ∷ xs) p h (r, rs) = elim (Bool-cases (t x)) [
  | inl e ↦ let same : x ≡ p = ground arith in subst R same r
  | inr e ↦ find-All R t xs p (ground arith) rs
]

-- The selected point is an available one.
select-All {κ} :
    (R : Point → Type κ) (wanted : Option String) (ps : List Point) (p : Point)
    → select wanted ps ≡ some p
    → All R ps
    → R p
unfolding select
select-All R none [] p h a = ground arith
select-All R none (x ∷ xs) p h (r, rs) = let same : x ≡ p = ground arith in subst R same r
select-All R (some id) ps p h a = find-All R (λ q. q.id == id) ps p h a

-- The selected point is the one that is asked for, and then the chain is that point alone; otherwise
-- it is the first of the chain.
unfoldable pub IsWanted : Option String → String → List String → Type 0
IsWanted none selected chain = (rest : List String) × (chain ≡ selected ∷ rest)
IsWanted (some id) selected chain = (selected ≡ id) × (chain ≡ id ∷ [])

find-id :
    (id : String) (ps : List Point) (p : Point)
    → find (λ (q : Point). q.id == id) ps ≡ some p
    → p.id ≡ id
find-id id [] p h = ground arith
find-id id (x ∷ xs) p h = ground (arith, find-id id xs p, eq_iff x.id id)

select-IsWanted :
    (wanted : Option String) (ps : List Point) (p : Point)
    → select wanted ps ≡ some p
    → IsWanted wanted p.id (chain_of wanted p ps)
unfolding select IsWanted
select-IsWanted none [] p h = ground arith
select-IsWanted none (x ∷ xs) p h =
    let same : x ≡ p = ground arith in
    (map (λ (q : Point). q.id) xs, ap (λ (q : Point). q.id ∷ map (λ (q : Point). q.id) xs) same)
select-IsWanted (some id) ps p h = let named = find-id id ps p h in (named, ap (λ x. x ∷ []) named)

module _ {N : Numbers} {C : Type 0} where
  -- What a property says of a decision that may not admit.
  unfoldable pub OnDecision {κ} : (Admission N C → Type κ) → Decision N C → Type κ
  OnDecision P (admitted a) = P a
  OnDecision P (rejected p) = Unit
  OnDecision P (abstained why component) = Unit

  pub OnDecision-admitted {κ} :
      (P : Admission N C → Type κ) (d : Decision N C) (a : Admission N C)
      → d ≡ admitted a
      → OnDecision P d
      → P a
  unfolding OnDecision
  OnDecision-admitted P d a h o = subst (λ x. OnDecision P x) h o

  module _ (i : Input N C) (floor start : QualityTier) where
    -- The admission of a point that is a candidate of the kind `Q`.
    unfoldable pub IsSound : (Point → Type 0) → Admission N C → Type 0
    IsSound Q a =
        (a.workload_floor ≡ floor)
        × (a.effective_start ≡ start)
        × IsWanted i.operating_point a.selected.id a.chain
        × Q a.selected
        × IsOpen i.availability a.selected
        × (i.compile a.selected ≡ contract a.configuration)

    admit-IsSound :
        (Q : Point → Type 0) (g : Gated) (p : Point) (o : Compiled C)
        → IsAdmissible Q i.availability p
        → select i.operating_point g.available ≡ some p
        → i.compile p ≡ o
        → OnDecision (IsSound Q) (admit i floor start g p o)
    unfolding admit OnDecision IsSound
    admit-IsSound Q g p (contract c) (q, r) w e =
        (refl, refl, select-IsWanted i.operating_point g.available p w, q, r, e)
    admit-IsSound Q g p selection_refused q w e = tt
    admit-IsSound Q g p compile_failed q w e = tt

    after_select-IsSound :
        (Q : Point → Type 0) (g : Gated) (found : Option Point)
        → select i.operating_point g.available ≡ found
        → ((p : Point) → found ≡ some p → IsAdmissible Q i.availability p)
        → OnDecision (IsSound Q) (after_select i floor start g found)
    unfolding after_select OnDecision
    after_select-IsSound Q g none w a = tt
    after_select-IsSound Q g (some p) w a = admit-IsSound Q g p (i.compile p) (a p refl) w refl

    after_scan-IsSound :
        (Q : Point → Type 0) (r : Scan)
        → ((g : Gated) → r ≡ scanned g → All (IsAdmissible Q i.availability) g.available)
        → OnDecision (IsSound Q) (after_scan i floor start r)
    unfolding after_scan OnDecision
    after_scan-IsSound Q (stopped catalog_unavailable) a = tt
    after_scan-IsSound Q (stopped transport_failed) a = tt
    after_scan-IsSound Q (stopped no_candidates_at_tier) a = tt
    after_scan-IsSound Q (stopped invalid_response) a = tt
    after_scan-IsSound Q (scanned g) a =
        let s = after_select-IsSound Q g (select i.operating_point g.available) refl (λ p h.
          select-All (IsAdmissible Q i.availability) i.operating_point g.available p h
            (a g refl)) in
        ground arith

    pub gate_candidates-IsSound :
        (Q : Point → Type 0) (ps : List Point) (excluded : List ChainExclusion)
        → All Q ps
        → OnDecision (IsSound Q) (gate_candidates i floor start ps excluded)
    unfolding gate_candidates OnDecision
    gate_candidates-IsSound Q ps excluded q =
        let r = scan i.catalog.has_runner i.availability ps (start_gated excluded) in
        let s = after_scan-IsSound Q r (λ g h.
          scan-All Q i.availability i.catalog.has_runner ps (start_gated excluded) g q tt h) in
        ground arith

-- A candidate of a recovery is not of the provider of the failed point.
unfoldable pub IsElsewhere : List Point → Option Recovery → Point → Type 0
IsElsewhere points none p = Unit
IsElsewhere points (some r) p =
    (failed : Point) × (point_by_id r.prior_operating_point points ≡ some failed)
    × (p.provider ≢ failed.provider)

pub keep-All {κ} :
    (R : Point → Type κ) (provider : String) (ps : List Point)
    → All R ps
    → All (λ p. R p × (p.provider ≢ provider)) (keep (other_provider provider) ps)
keep-All R provider [] a = tt
keep-All R provider (p ∷ ps) (r, rs) = elim (Bool-cases (p.provider == provider)) [
  | inl e ↦ rw e (keep-All R provider ps rs)
  | inr e ↦
      let other : p.provider ≢ provider = ground (arith, eq_iff p.provider provider) in
      rw e ((r, other), keep-All R provider ps rs)
]

pub All-mono {κ μ} :
    (R : Point → Type κ) (S : Point → Type μ)
    → ((p : Point) → R p → S p)
    → (ps : List Point) → All R ps
    → All S ps
All-mono R S f [] a = tt
All-mono R S f (p ∷ ps) (r, rs) = (f p r, All-mono R S f ps rs)

-- A point of the catalog under one of the identifiers.
unfoldable pub IsListed : List Point → List String → Point → Type 0
IsListed points ids p = (contains p.id ids ≡ true) × (point_by_id p.id points ≡ some p)

pub point_by_id-id :
    (id : String) (ps : List Point) (p : Point) → point_by_id id ps ≡ some p → p.id ≡ id
unfolding point_by_id
point_by_id-id id [] p h = ground arith
point_by_id-id id (x ∷ xs) p h = ground (arith, point_by_id-id id xs p, eq_iff x.id id)
