-- ===== src/Routing/Judgment.antt =====
-- src/router.ts: what the model's response to a Task is read as.
use herdr_tools.Base.{
  Bool, ◌&&◌, String, ◌==◌, List, [], ◌∷◌, Option, none, some, eqb, length, is_identifier,
  if◌then◌else◌,
}
use herdr_tools.Base.Dict.{Dict, get}
use herdr_tools.Routing.Tiers.{QualityTier, utility, economy, standard, strong, frontier, max}
use herdr_tools.Routing.Points.{
  WorkloadIntent, explore, reason, implement, debug, verify, review, coordinate, unknown_intent,
}
use herdr_tools.Routing.Chains.{AbstainReason, invalid_response, transport_failed}

-- The floating point arithmetic of JavaScript that the reading uses.
pub record Numbers : Type 1 where
  pub Number : Type 0
  -- Finite and between 0 and 1.
  pub is_probability : Number → Bool
  -- `1 - p`, and the larger of two numbers.
  pub complement : Number → Number
  pub larger : Number → Number → Number
  pub at_most : Number → Number → Bool
  -- `ROUTER_CONFIDENCE_THRESHOLD`, 0.8.
  pub threshold : Number
  -- The sum is within 1e-6 of 1.
  pub sums_to_one : List Number → Bool

module _ (N : Numbers) where
  -- A JSON value as far as the reading looks into it.
  pub data Value : Type 0 where
    number : N.Number → Value
    text : String → Value
    other : Value

  -- `intent` or `tier` of the response; `probabilities` may be absent or no object.
  pub record RawJudgment : Type 0 where
    pub value : Value
    pub confidence : Value
    pub probabilities : Option (Option (Dict Value))

  -- The response of the model: absent fields and fields of another type are none.
  pub record Response : Type 0 where
    pub done_when_verifiable : Option Value
    pub transport : Bool
    pub component : Option String
    pub intent : Option RawJudgment
    pub tier : Option RawJudgment

  pub record Evidence (A : Type 0) : Type 0 where
    pub value : A
    pub confidence : N.Number
    pub probabilities : Option (List N.Number)

abbrev pub probability : (N : Numbers) → Value N → Option N.Number
probability N (number n) = if N.is_probability n then some n else none
probability N (text s) = none
probability N other = none

abbrev read_probability : (N : Numbers) → Option (Value N) → Option N.Number
read_probability N none = none
read_probability N (some v) = probability N v

abbrev joined : (N : Numbers) → Option N.Number → Option (List N.Number) → Option (List N.Number)
joined N (some n) (some ns) = some (n ∷ ns)
joined N _ _ = none

abbrev read_all : (N : Numbers) → Dict (Value N) → List String → Option (List N.Number)
read_all N d [] = some []
read_all N d (k ∷ ks) = joined N (read_probability N (get k d)) (read_all N d ks)

abbrev when_sum : (N : Numbers) → Option (List N.Number) → Option (List N.Number)
when_sum N none = none
when_sum N (some ns) = if N.sums_to_one ns then some ns else none

-- `distribution`.
unfoldable pub distribution :
    (N : Numbers) → Option (Dict (Value N)) → List String → Option (List N.Number)
distribution N none keys = none
distribution N (some d) keys =
    if eqb (length d) (length keys) then when_sum N (read_all N d keys) else none

-- `WORKLOAD_INTENTS` without "unknown", and `QUALITY_TIERS`, by name.
abbrev pub intent_names : List String
intent_names =
    "explore" ∷ "reason" ∷ "implement" ∷ "debug" ∷ "verify" ∷ "review" ∷ "coordinate" ∷ []

abbrev pub tier_names : List String
tier_names = "utility" ∷ "economy" ∷ "standard" ∷ "strong" ∷ "frontier" ∷ "max" ∷ []

unfoldable pub intent_of : String → Option WorkloadIntent
intent_of s =
    if s == "explore"
    then some explore
    else if s == "reason"
    then some reason
    else if s == "implement"
    then some implement
    else if s == "debug"
    then some debug
    else if s == "verify"
    then some verify
    else if s == "review"
    then some review
    else if s == "coordinate"
    then some coordinate
    else if s == "unknown"
    then some unknown_intent
    else none

unfoldable pub tier_of : String → Option QualityTier
tier_of s =
    if s == "utility"
    then some utility
    else if s == "economy"
    then some economy
    else if s == "standard"
    then some standard
    else if s == "strong"
    then some strong
    else if s == "frontier"
    then some frontier
    else if s == "max"
    then some max
    else none

abbrev with_probabilities :
    (N : Numbers) {A : Type 0} → A → N.Number → Option (List N.Number) → Option (Evidence N A)
with_probabilities N a c none = none
with_probabilities N a c (some ps) =
    some (record { value = a; confidence = c; probabilities = some ps })

abbrev with_confidence :
    (N : Numbers) {A : Type 0}
    → List String
    → RawJudgment N
    → Option A
    → Option N.Number
    → Option (Evidence N A)
with_confidence N keys raw none c = none
with_confidence N keys raw (some a) none = none
with_confidence N keys raw (some a) (some c) = elim raw.probabilities [
  | none ↦ some (record { value = a; confidence = c; probabilities = none })
  | some d ↦ with_probabilities N a c (distribution N d keys)
]

abbrev named : (N : Numbers) {A : Type 0} → (String → Option A) → Value N → Option A
named N f (text s) = f s
named N f (number n) = none
named N f other = none

-- `intentJudgment` and `tierJudgment`: one reading for both closed unions.
unfoldable pub judgment :
    (N : Numbers) {A : Type 0}
    → (String → Option A)
    → List String
    → Option (RawJudgment N)
    → Option (Evidence N A)
unfolding distribution
judgment N f keys none = none
judgment N f keys (some raw) =
    with_confidence N keys raw (named N f raw.value) (probability N raw.confidence)

-- The gate on `doneWhen`.
unfoldable pub is_rejected : (N : Numbers) → N.Number → Bool
is_rejected N p =
    N.at_most p (N.complement N.threshold) && N.at_most N.threshold (N.larger p (N.complement p))

pub data Judged (N : Numbers) : Type 0 where
  rejects : N.Number → Judged N
  abstains : AbstainReason → String → Judged N
  judged : N.Number → Evidence N WorkloadIntent → Evidence N QualityTier → Judged N

unfoldable pub judge_fields :
    (N : Numbers)
    → N.Number
    → Option (Evidence N WorkloadIntent)
    → Option (Evidence N QualityTier)
    → Judged N
judge_fields N p none t = abstains invalid_response "intent"
judge_fields N p (some i) none = abstains invalid_response "tier"
judge_fields N p (some i) (some t) = judged p i t

abbrev component_of : Option String → String
component_of none = "transport"
component_of (some c) = if is_identifier c then c else "transport"

-- The start of `routeTask`: quality, transport, intent, tier.
unfoldable pub judge : (N : Numbers) → Response N → Judged N
unfolding is_rejected judgment judge_fields intent_of tier_of is_identifier
judge N r = elim (read_probability N r.done_when_verifiable) [
  | none ↦ abstains invalid_response "quality"
  | some p ↦
      if is_rejected N p
      then rejects p
      else if r.transport
      then abstains transport_failed (component_of r.component)
      else judge_fields N p (judgment N intent_of intent_names r.intent)
          (judgment N tier_of tier_names r.tier)
]
