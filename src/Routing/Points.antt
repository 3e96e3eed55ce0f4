-- ===== src/Routing/Points.antt =====
-- src/routing-policy.ts: envelopes, workloads, recovery evidence and the ranking of points.
use herdr_tools.Base.{
  ℕ, ◌+◌, Bool, false, ◌&&◌, ◌||◌, String, ◌==◌, List, [], ◌∷◌, ◌++◌, Option, none, some, length,
  if◌then◌else◌,
}
use herdr_tools.Routing.Tiers.{
  QualityTier, utility, economy, standard, strong, frontier, max, tier_rank, max_tier, tier_at,
}

-- `CostClass` and `LatencyClass`.
pub data CostClass : Type 0 where
  low medium high extreme : CostClass

-- `ClassBound`.
pub data ClassBound : Type 0 where
  class : CostClass → ClassBound
  unbounded : ClassBound

unfoldable pub class_rank : CostClass → ℕ
class_rank low = 0
class_rank medium = 1
class_rank high = 2
class_rank extreme = 3

unfoldable pub bound_rank : ClassBound → ℕ
unfolding class_rank
bound_rank unbounded = class_rank extreme + 1
bound_rank (class c) = class_rank c

pub record TierEnvelope : Type 0 where
  pub max_cost_class : ClassBound
  pub max_latency_class : ClassBound

-- `TIER_ENVELOPES`.
unfoldable pub tier_envelope : QualityTier → TierEnvelope
tier_envelope utility = record { max_cost_class = class low; max_latency_class = class low }
tier_envelope economy = record { max_cost_class = class low; max_latency_class = class medium }
tier_envelope standard = record { max_cost_class = class medium; max_latency_class = class medium }
tier_envelope strong = record { max_cost_class = class high; max_latency_class = class high }
tier_envelope frontier = record {
  max_cost_class = class extreme;
  max_latency_class = class extreme;
}
tier_envelope max = record { max_cost_class = unbounded; max_latency_class = unbounded }

pub data WorkloadIntent : Type 0 where
  explore reason implement debug verify review coordinate unknown_intent : WorkloadIntent

pub data WorkspaceState : Type 0 where
  clean partial failed : WorkspaceState

pub data Mutation : Type 0 where
  no_mutation bounded_mutation broad : Mutation

pub data Scope : Type 0 where
  local multi_file repo_wide : Scope

pub data Horizon : Type 0 where
  short medium_horizon long : Horizon

pub data Ambiguity : Type 0 where
  low_ambiguity medium_ambiguity high_ambiguity : Ambiguity

-- `WorkloadProfile`; its verifiability changes no decision here.
pub record WorkloadProfile : Type 0 where
  pub intent : WorkloadIntent
  pub mutation : Mutation
  pub scope : Scope
  pub horizon : Horizon
  pub workspace_state : WorkspaceState
  pub ambiguity : Ambiguity

-- `INTENT_TIER_INTERVALS`: floor and ceiling.
unfoldable pub intent_interval : WorkloadIntent → QualityTier × QualityTier
intent_interval explore = (utility, standard)
intent_interval reason = (economy, frontier)
intent_interval implement = (standard, frontier)
intent_interval debug = (standard, max)
intent_interval verify = (utility, standard)
intent_interval review = (standard, frontier)
intent_interval coordinate = (standard, frontier)
intent_interval unknown_intent = (standard, max)

pub data DifficultModifier : Type 0 where
  mutation_broad scope_repo_wide horizon_long ambiguity_high workspace_state_partial
        workspace_state_failed :
      DifficultModifier

abbrev mutation_modifiers : Mutation → List DifficultModifier
mutation_modifiers broad = mutation_broad ∷ []
mutation_modifiers _ = []

abbrev scope_modifiers : Scope → List DifficultModifier
scope_modifiers repo_wide = scope_repo_wide ∷ []
scope_modifiers _ = []

abbrev horizon_modifiers : Horizon → List DifficultModifier
horizon_modifiers long = horizon_long ∷ []
horizon_modifiers _ = []

abbrev ambiguity_modifiers : Ambiguity → List DifficultModifier
ambiguity_modifiers high_ambiguity = ambiguity_high ∷ []
ambiguity_modifiers _ = []

abbrev workspace_modifiers : WorkspaceState → List DifficultModifier
workspace_modifiers clean = []
workspace_modifiers partial = workspace_state_partial ∷ []
workspace_modifiers failed = workspace_state_failed ∷ []

-- `difficultModifiers`.
unfoldable pub difficult_modifiers : WorkloadProfile → List DifficultModifier
difficult_modifiers p =
    mutation_modifiers p.mutation
    ++ (scope_modifiers p.scope
        ++ (horizon_modifiers p.horizon
            ++ (ambiguity_modifiers p.ambiguity ++ workspace_modifiers p.workspace_state)))

pub record WorkloadTierPolicy : Type 0 where
  pub requested_tier : QualityTier
  pub base_floor : QualityTier
  pub base_ceiling : QualityTier
  pub modifiers : List DifficultModifier
  pub adjusted_floor : QualityTier
  pub adjusted_ceiling : QualityTier
  pub effective_start : QualityTier
  pub effective_ceiling : QualityTier

unfoldable pub raised_ceiling : WorkspaceState → QualityTier → ℕ → QualityTier
unfolding tier_rank tier_at
raised_ceiling failed ceiling count = max
raised_ceiling _ ceiling count = tier_at (tier_rank ceiling + count)

-- `resolveTierPolicy`, for the tier requested or "standard".
unfoldable pub resolve_tier_policy : WorkloadProfile → Option QualityTier → WorkloadTierPolicy
unfolding intent_interval difficult_modifiers raised_ceiling tier_at tier_rank max_tier
resolve_tier_policy profile requested_tier =
    let requested : QualityTier = elim requested_tier [ none ↦ standard | some t ↦ t ] in
    let count = length (difficult_modifiers profile) in
    let floor = tier_at (tier_rank (intent_interval profile.intent).0 + count) in
    let ceiling = raised_ceiling profile.workspace_state (intent_interval profile.intent).1 count in
    let start = max_tier requested floor in
    record {
      requested_tier = requested;
      base_floor = (intent_interval profile.intent).0;
      base_ceiling = (intent_interval profile.intent).1;
      modifiers = difficult_modifiers profile;
      adjusted_floor = floor;
      adjusted_ceiling = ceiling;
      effective_start = start;
      effective_ceiling = max_tier ceiling start;
    }

pub record RecoveryEvidence : Type 0 where
  pub lifecycle : String
  pub artifact_status : Option String

abbrev status_is : String → Option String → Bool
status_is s none = false
status_is s (some t) = t == s

abbrev terminal_artifact : Option String → Bool
terminal_artifact a =
    status_is "done" a
    || (status_is "blocked" a || (status_is "cancelled" a || status_is "failed" a))

-- `deriveWorkspaceState`: `none` where it throws RECOVERY_SOURCE_UNRESOLVABLE.
unfoldable pub derive_workspace_state : Option RecoveryEvidence → Option WorkspaceState
derive_workspace_state none = some clean
derive_workspace_state (some r) =
    if r.lifecycle == "failed" || r.lifecycle == "cancelled"
    then some failed
    else if r.lifecycle == "recovery_pending"
    then some (if status_is "failed" r.artifact_status then failed else partial)
    else if r.lifecycle == "handed_off" && terminal_artifact r.artifact_status
    then some (if status_is "failed" r.artifact_status then failed else clean)
    else none
