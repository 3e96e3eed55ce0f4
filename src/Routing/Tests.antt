-- ===== src/Routing/Tests.antt =====
-- Runs of the routing of a Task, and its theorems at concrete inputs.
use herdr_tools.Base.{
  All, map, text_before, ℕ, ◌+◌, ◌-◌, ◌≤◌, ◌≡◌, refl, ◌⊎◌, Bool, true, String, List, [], ◌∷◌,
  Option, some, none, leb, ◌==◌, false, is_identifier, if◌then◌else◌,
}
use herdr_tools.Base.Dict.{get, put}
use herdr_tools.Base.Joined.{nul_joined}
use herdr_tools.Routing.Tiers.{
  QualityTier, standard, strong, frontier, max, tier_rank, effective_start_tier, requested_start,
  next_tier, max_tier,
}
use herdr_tools.Routing.Points.{
  WorkloadProfile, debug, broad, local, short, partial, low_ambiguity, resolve_tier_policy,
}
use herdr_tools.Base.Sort.{sort, insert_sorted}
use herdr_tools.Routing.Ranking.{
  recovery_excluded, point_unavailable, ScoredPoint, rank_fallback_candidates, envelope_reasons,
  ranks_before, first_of_providers, not_chosen,
}
use herdr_tools.Routing.Ranked.{has_id, Within, ranked_admissible, ranked_complete}
use herdr_tools.Routing.Points.{
  CostClass, low, medium, extreme, bound_rank, class_rank, tier_envelope,
}
use herdr_tools.Routing.Judgment.{
  Numbers, number, text, Response, judged, judge, is_rejected, judgment, judge_fields, intent_of,
  tier_of, distribution,
}
use herdr_tools.Routing.Chains.{
  Point, Catalog, Status, unknown_status, known_exhausted, chain_ids, recovery_minimum, Gated, scan,
  observe, quota_identity, chained, unique, point_by_id, resolve,
}
use herdr_tools.Routing.Route.{
  Input, Admission, contract, admitted, route_task, start_gated, select, admit, after_select,
  after_scan, gate_candidates, without_failed, recover_candidates, resolved, route_chains,
  route_judged,
}
use herdr_tools.Routing.Scanned.{IsOpen, Accounts, scan-Accounts}
use herdr_tools.Routing.Admitted.{IsWanted, IsListed, IsElsewhere}
use herdr_tools.Routing.Guarantee.{route_guarantee}
use herdr_tools.Routing.Starts.{effective_start_window, resolve_tier_policy_interval}

-- Thousandths in place of floating point numbers.
abbrev thousandths : Numbers
thousandths = record {
  Number = ℕ;
  is_probability = λ n. leb n 1000;
  complement = λ n. 1000 - n;
  larger = λ a b. if leb a b then b else a;
  at_most = leb;
  threshold = 800;
  sums_to_one = λ ns. true;
}

abbrev point : String → String → Point
point id provider = record {
  id = id;
  provider = provider;
  runner = "pi";
  model = "m";
  quota = record { provider = provider; billing_product = "b"; account = "a"; scope = "s" };
}

abbrev exhausted_only_first : Point → Option Status
exhausted_only_first p = if p.id == "one" then some known_exhausted else some unknown_status

abbrev chains : QualityTier → List String
chains strong = "zero" ∷ "one" ∷ []
chains frontier = "one" ∷ "two" ∷ "three" ∷ []
chains _ = []

abbrev catalog : Catalog
catalog = record {
  points = point "zero" "x" ∷ point "one" "y" ∷ point "two" "y" ∷ point "three" "z" ∷ [];
  tier_chains = some chains;
  has_runner = λ r. true;
}

abbrev response : Response thousandths
response = record {
  done_when_verifiable = some (number 900);
  transport = false;
  component = none;
  intent = some (record { value = text "debug"; confidence = number 700; probabilities = none });
  tier = some (record { value = text "standard"; confidence = number 600; probabilities = none });
}

-- The retry of a run on "zero" at the standard tier.
abbrev task : Input thousandths String
task = record {
  response = response;
  catalog = catalog;
  tier = some max;
  recovery = some (record {
    prior_operating_point = "zero";
    prior_route_tier = standard;
    provider_limited = false;
  });
  operating_point = none;
  has_gate = true;
  availability = exhausted_only_first;
  compile = λ p. contract p.id;
}

abbrev verdict : Admission thousandths String
verdict = record {
  workload_floor = standard;
  effective_start = strong;
  chain = "three" ∷ [];
  selected = point "three" "z";
  configuration = "three";
  exclusions =
      record { id = "zero"; provider = "x"; reasons = recovery_excluded ∷ [] }
      ∷ record { id = "one"; provider = "y"; reasons = point_unavailable ∷ [] }
      ∷ record { id = "two"; provider = "y"; reasons = point_unavailable ∷ [] }
      ∷ [];
  statuses = ("one", known_exhausted) ∷ ("three", unknown_status) ∷ [];
}

-- Opens the code that the routing of a Task goes through.
routing_code : Bool
unfolding judge is_rejected judgment judge_fields intent_of tier_of distribution is_identifier
    route_task route_judged route_chains effective_start_tier requested_start next_tier max_tier
    tier_rank recovery_minimum resolve chain_ids chained unique point_by_id resolved
    recover_candidates without_failed gate_candidates scan observe quota_identity nul_joined put get
    after_scan select after_select admit
routing_code = true

judged_standard :
    judge thousandths response
    ≡ judged 900
        (record { value = debug; confidence = 700; probabilities = none })
        (record { value = standard; confidence = 600; probabilities = none })
unfolding routing_code
judged_standard = refl

-- The start is one tier above the prior route; "zero" is of the failed provider, and "two" shares the
-- exhausted quota of "one".
retry_admitted : route_task task ≡ admitted verdict
unfolding routing_code
retry_admitted = refl

route_guarantee_example :
    (verdict.workload_floor ≡ standard)
    × (verdict.effective_start
        ≡ effective_start_tier standard task.tier (recovery_minimum task.recovery))
    × IsWanted none "three" ("three" ∷ [])
    × (IsListed catalog.points
          (chain_ids chains
            (effective_start_tier standard task.tier (recovery_minimum task.recovery)))
          verdict.selected
        × IsElsewhere catalog.points task.recovery verdict.selected)
    × IsOpen exhausted_only_first verdict.selected
    × (task.compile verdict.selected ≡ contract "three")
route_guarantee_example =
    route_guarantee task chains 900
      (record { value = debug; confidence = 700; probabilities = none })
      (record { value = standard; confidence = 600; probabilities = none }) verdict refl
      judged_standard retry_admitted

abbrev gated : Gated
gated = record {
  statuses = ("one", known_exhausted) ∷ [];
  exhausted_quotas = quota_identity (point "one" "y") ∷ [];
  local_runners = [];
  exclusions =
      record { id = "one"; provider = "y"; reasons = point_unavailable ∷ [] }
      ∷ record { id = "two"; provider = "y"; reasons = point_unavailable ∷ [] }
      ∷ [];
  available = [];
}

scan-Accounts_example :
    Accounts exhausted_only_first (point "one" "y" ∷ point "two" "y" ∷ []) [] [] [] [] gated
scan-Accounts_example =
    scan-Accounts catalog.has_runner exhausted_only_first (point "one" "y" ∷ point "two" "y" ∷ [])
      (start_gated []) gated (unfold routing_code in refl)

effective_start_window_example :
    (tier_rank standard ≤ tier_rank (effective_start_tier standard (some max) (some frontier)))
    × ((tier_rank (effective_start_tier standard (some max) (some frontier))
          ≤ tier_rank standard + 1)
        ⊎ (some (effective_start_tier standard (some max) (some frontier)) ≡ some frontier))
effective_start_window_example = effective_start_window standard (some max) (some frontier)

abbrev profile : WorkloadProfile
profile = record {
  intent = debug;
  mutation = broad;
  scope = local;
  horizon = short;
  workspace_state = partial;
  ambiguity = low_ambiguity;
}

resolve_tier_policy_interval_example :
    let p = resolve_tier_policy profile (some strong) in
    (tier_rank p.adjusted_floor ≤ tier_rank p.adjusted_ceiling)
    × (tier_rank p.adjusted_floor ≤ tier_rank p.effective_start)
    × (tier_rank p.requested_tier ≤ tier_rank p.effective_start)
    × (tier_rank p.effective_start ≤ tier_rank p.effective_ceiling)
    × (tier_rank p.adjusted_ceiling ≤ tier_rank p.effective_ceiling)
resolve_tier_policy_interval_example = resolve_tier_policy_interval profile (some strong)

abbrev scored : String → String → CostClass → ℕ → ScoredPoint
scored id provider cost fitness = record {
  id = id;
  provider = provider;
  cost_class = cost;
  latency_class = low;
  fitness_by_tier = λ tier. fitness;
}

abbrev menu : List ScoredPoint
menu =
    scored "a" "x" medium 5
    ∷ scored "b" "x" medium 9
    ∷ scored "c" "y" low 7
    ∷ scored "d" "z" extreme 10
    ∷ []

-- The best of each provider comes first, then the rest; the point beyond the envelope is left out.
menu_ranked :
    map (λ (p : ScoredPoint). p.id) (rank_fallback_candidates menu standard).ordered
    ≡ "b" ∷ "c" ∷ "a" ∷ []
unfolding rank_fallback_candidates envelope_reasons bound_rank class_rank tier_envelope ranks_before
    sort insert_sorted first_of_providers not_chosen text_before
menu_ranked = refl

ranked_admissible_example :
    All (Within menu standard) (rank_fallback_candidates menu standard).ordered
ranked_admissible_example = ranked_admissible menu standard

ranked_complete_example : has_id "a" (rank_fallback_candidates menu standard).ordered ≡ true
ranked_complete_example =
    ranked_complete menu standard "a"
      (unfold envelope_reasons bound_rank class_rank tier_envelope in refl)
