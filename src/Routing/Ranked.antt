-- ===== src/Routing/Ranked.antt =====
-- The ranked order of src/routing-policy.ts.
use herdr_tools.Base.{
  ℕ, ◌≤◌, ◌⊎◌, ◌≡◌, refl, ◌∙◌, Bool, true, String, List, [], ◌∷◌, ◌++◌, arith, All, All-append,
  keep, map, inl, inr, Bool-cases, ◌||◌, ◌==◌, eq_iff,
}
use herdr_tools.Base.Sort.{sort, insert_sorted}
use herdr_tools.Routing.Tiers.{QualityTier, utility, economy, standard, strong, frontier, max}
use herdr_tools.Routing.Points.{
  CostClass, low, medium, high, extreme, class_rank, bound_rank, tier_envelope,
}
use herdr_tools.Routing.Ranking.{
  ScoredPoint, envelope_reasons, is_eligible, ranks_before, first_of_providers, not_chosen,
  contains, rank_fallback_candidates,
}

module _ (P : ScoredPoint → Type 0) where
  insert_sorted-All :
      (before : ScoredPoint → ScoredPoint → Bool) (a : ScoredPoint) (xs : List ScoredPoint)
      → P a
      → All P xs
      → All P (insert_sorted before a xs)
  unfolding insert_sorted
  insert_sorted-All before a [] p q = (p, q)
  insert_sorted-All before a (b ∷ bs) p (q, r) = elim (Bool-cases (before b a)) [
    | inl e ↦ rw e (q, insert_sorted-All before a bs p r)
    | inr e ↦ rw e (p, (q, r))
  ]

  sort-All :
      (before : ScoredPoint → ScoredPoint → Bool) (xs : List ScoredPoint)
      → All P xs
      → All P (sort before xs)
  unfolding sort
  sort-All before [] p = p
  sort-All before (x ∷ xs) (p, q) =
      insert_sorted-All before x (sort before xs) p (sort-All before xs q)

  first_of_providers-All :
      (seen : List String) (xs : List ScoredPoint) → All P xs → All P (first_of_providers seen xs)
  unfolding first_of_providers
  first_of_providers-All seen [] p = p
  first_of_providers-All seen (x ∷ xs) (p, q) = elim (Bool-cases (contains x.provider seen)) [
    | inl e ↦ rw e (first_of_providers-All seen xs q)
    | inr e ↦ rw e (p, first_of_providers-All (x.provider ∷ seen) xs q)
  ]

  not_chosen-All :
      (chosen : List String) (xs : List ScoredPoint) → All P xs → All P (not_chosen chosen xs)
  unfolding not_chosen
  not_chosen-All chosen [] p = p
  not_chosen-All chosen (x ∷ xs) (p, q) = elim (Bool-cases (contains x.id chosen)) [
    | inl e ↦ rw e (not_chosen-All chosen xs q)
    | inr e ↦ rw e (p, not_chosen-All (x.id ∷ chosen) xs q)
  ]

-- Every identifier is among those given or names one of the points that the second loop takes.
not_chosen_complete :
    (id : String) (chosen : List String) (xs : List ScoredPoint)
    → contains id (map (λ (p : ScoredPoint). p.id) xs) ≡ true
    → (contains id chosen || contains id (map (λ (p : ScoredPoint). p.id) (not_chosen chosen xs)))
      ≡ true
unfolding not_chosen
not_chosen_complete id chosen [] h = ground arith
not_chosen_complete id chosen (x ∷ xs) h = ground (
  arith,
  not_chosen_complete id chosen xs,
  not_chosen_complete id (x.id ∷ chosen) xs,
  eq_iff x.id id,
)

-- Whether a list has a point of that identifier.
abbrev pub has_id : String → List ScoredPoint → Bool
has_id id xs = contains id (map (λ (p : ScoredPoint). p.id) xs)

has_id-insert_sorted :
    (before : ScoredPoint → ScoredPoint → Bool) (id : String) (a : ScoredPoint)
    (xs : List ScoredPoint)
    → has_id id (insert_sorted before a xs) ≡ ((a.id == id) || has_id id xs)
unfolding insert_sorted
has_id-insert_sorted before id a [] = refl
has_id-insert_sorted before id a (b ∷ bs) = ground (arith, has_id-insert_sorted before id a bs)

has_id-sort :
    (before : ScoredPoint → ScoredPoint → Bool) (id : String) (xs : List ScoredPoint)
    → has_id id (sort before xs) ≡ has_id id xs
unfolding sort
has_id-sort before id [] = refl
has_id-sort before id (x ∷ xs) =
    ground (arith, has_id-insert_sorted before id x (sort before xs), has_id-sort before id xs)

has_id-append :
    (id : String) (xs ys : List ScoredPoint) → has_id id (xs ++ ys) ≡ (has_id id xs || has_id id ys)
has_id-append id [] ys = refl
has_id-append id (x ∷ xs) ys = ground (arith, has_id-append id xs ys)

-- A point of a list.
unfoldable pub Among : List ScoredPoint → ScoredPoint → Type 0
Among [] p = ⊥
Among (x ∷ xs) p = (p ≡ x) ⊎ Among xs p

All-mono {κ μ} :
    (P : ScoredPoint → Type κ) (Q : ScoredPoint → Type μ) (xs : List ScoredPoint)
    → ((p : ScoredPoint) → P p → Q p)
    → All P xs
    → All Q xs
All-mono P Q [] f h = tt
All-mono P Q (x ∷ xs) f (p, q) = (f x p, All-mono P Q xs f q)

All-Among : (xs : List ScoredPoint) → All (Among xs) xs
unfolding Among
All-Among [] = tt
All-Among (x ∷ xs) =
    (inl refl, All-mono (Among xs) (Among (x ∷ xs)) xs (λ p h. inr h) (All-Among xs))

-- The four classes of cost and of latency in their order.
unfoldable pub size : CostClass → ℕ
size low = 0
size medium = 1
size high = 2
size extreme = 3

-- The largest cost and the largest latency of each tier.
unfoldable pub limits : QualityTier → ℕ × ℕ
limits utility = (0, 0)
limits economy = (0, 1)
limits standard = (1, 1)
limits strong = (2, 2)
limits frontier = (3, 3)
limits max = (4, 4)

class_rank-size : (c : CostClass) → class_rank c ≡ size c
unfolding class_rank size
class_rank-size low = refl
class_rank-size medium = refl
class_rank-size high = refl
class_rank-size extreme = refl

bound_rank-limits :
    (tier : QualityTier)
    → (bound_rank (tier_envelope tier).max_cost_class ≡ (limits tier).0)
      × (bound_rank (tier_envelope tier).max_latency_class ≡ (limits tier).1)
unfolding bound_rank tier_envelope limits class_rank
bound_rank-limits utility = (refl, refl)
bound_rank-limits economy = (refl, refl)
bound_rank-limits standard = (refl, refl)
bound_rank-limits strong = (refl, refl)
bound_rank-limits frontier = (refl, refl)
bound_rank-limits max = (refl, refl)

-- A given point whose cost and whose latency are at most the limits of the tier.
abbrev pub Within : List ScoredPoint → QualityTier → ScoredPoint → Type 0
Within points tier p =
    Among points p
    × (size p.cost_class ≤ (limits tier).0)
    × (size p.latency_class ≤ (limits tier).1)

eligible-Within :
    (points : List ScoredPoint) (tier : QualityTier) (p : ScoredPoint)
    → Among points p
    → is_eligible tier p ≡ true
    → Within points tier p
unfolding envelope_reasons
eligible-Within points tier p given h =
    let (c, l) = bound_rank-limits tier in
    let a = class_rank-size p.cost_class in
    let b = class_rank-size p.latency_class in (given, ground arith, ground arith)

keep-Within :
    (points : List ScoredPoint) (tier : QualityTier) (xs : List ScoredPoint)
    → All (Among points) xs
    → All (Within points tier) (keep (is_eligible tier) xs)
keep-Within points tier [] h = tt
keep-Within points tier (x ∷ xs) (p, q) = elim (Bool-cases (is_eligible tier x)) [
  | inl e ↦ rw e (eligible-Within points tier x p e, keep-Within points tier xs q)
  | inr e ↦ rw e (keep-Within points tier xs q)
]

-- Every point of the ranked order is one of the points given, and its classes are within the tier's
-- limits: cost and latency low for utility, cost low and latency medium for economy, both at most
-- medium for standard, at most high for strong, and any for frontier and max.
pub ranked_admissible :
    (points : List ScoredPoint) (tier : QualityTier)
    → All (Within points tier) (rank_fallback_candidates points tier).ordered
unfolding rank_fallback_candidates
ranked_admissible points tier =
    let Fits = Within points tier in
    let ranked = sort (ranks_before tier) (keep (is_eligible tier) points) in
    let a =
      sort-All Fits (ranks_before tier) (keep (is_eligible tier) points)
        (keep-Within points tier points (All-Among points)) in
    let firsts = first_of_providers [] ranked in
    All-append Fits firsts (not_chosen (map (λ (p : ScoredPoint). p.id) firsts) ranked)
      (first_of_providers-All Fits [] ranked a)
      (not_chosen-All Fits (map (λ (p : ScoredPoint). p.id) firsts) ranked a)

-- Every identifier of a point within the envelope is in the ranked order.
pub ranked_complete :
    (points : List ScoredPoint) (tier : QualityTier) (id : String)
    → has_id id (keep (is_eligible tier) points) ≡ true
    → has_id id (rank_fallback_candidates points tier).ordered ≡ true
unfolding rank_fallback_candidates
ranked_complete points tier id h =
    let ranked = sort (ranks_before tier) (keep (is_eligible tier) points) in
    let there : has_id id ranked ≡ true =
      has_id-sort (ranks_before tier) id (keep (is_eligible tier) points) ∙ h in
    let firsts = first_of_providers [] ranked in
    let chosen = map (λ (p : ScoredPoint). p.id) firsts in
    has_id-append id firsts (not_chosen chosen ranked) ∙ not_chosen_complete id chosen ranked there
