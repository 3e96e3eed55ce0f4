-- ===== src/Availability/Routed.antt =====
-- A recorded quota failure and the route of src/router.ts, whose availability gate is `availability` of
-- src/availability.ts.
use herdr_tools.Base.{
  Bool, ℕ, ◌<◌, ◌≡◌, ◌≢◌, ap, ◌∙◌, true, String, List, Option, none, some, arith, inl, inr, ◌⊎◌,
}
use herdr_tools.Supervision.Json.{Fields}
use herdr_tools.Routing.Tiers.{QualityTier}
use herdr_tools.Routing.Points.{WorkloadIntent}
use herdr_tools.Routing.Judgment.{Numbers, Evidence, judged, judge}
use herdr_tools.Routing.Chains.{Quota, Point, Status, unknown_status, known_exhausted, degraded}
use herdr_tools.Routing.Route.{Input, Admission, admitted, route_task}
use herdr_tools.Routing.Guarantee.{route_guarantee}
use herdr_tools.Availability.Codes.{quota}
use herdr_tools.Availability.{Dates, build_record}
use herdr_tools.Availability.Keys.{RunnerEntry, availability_key_for}
use herdr_tools.Availability.Failures.{Signal, classed, classify_launch_failure}
use herdr_tools.Availability.RoundTrip.{ReadsIso}
use herdr_tools.Availability.Lines.{IsTerminated, WritesLine}
use herdr_tools.Availability.Answers.{InRange}
use herdr_tools.Availability.Log.{
  JsonText, Stat, trusted, Attempt, CandidateAvailability, record_launch_failure, availability,
}
use herdr_tools.Availability.Exhausts.{quota_until, record_launch_failure-exhausts}

-- The availability gate of `routeTask` where the caller gives none: what it asks of the record file,
-- which may be untrusted or unreadable.
unfoldable pub logged_gate :
    Dates
    → JsonText
    → Bool
    → Stat
    → Bool
    → (String → Option RunnerEntry)
    → ℕ
    → List ℕ
    → Point
    → Option Status
unfolding availability
logged_gate d j root_absolute stat readable runners now file p = elim (runners p.runner) [
  | none ↦ none
  | some r ↦ elim (availability d j root_absolute p.model r now stat readable file) [
    | none ↦ none
    | some a ↦ some a.status
  ]
]

logged_gate_status :
    (d : Dates) (j : JsonText) (root_absolute : Bool) (stat : Stat) (readable : Bool)
    (runners : String → Option RunnerEntry) (now : ℕ) (file : List ℕ) (p : Point) (r : RunnerEntry)
    (a : CandidateAvailability)
    → runners p.runner ≡ some r
    → availability d j root_absolute p.model r now stat readable file ≡ some a
    → logged_gate d j root_absolute stat readable runners now file p ≡ some a.status
unfolding logged_gate
logged_gate_status d j root_absolute stat readable runners now file p r a found given = ground arith

not_open :
    (o : Option Status) (s : Status)
    → o ≡ some s
    → s ≡ known_exhausted
    → (o ≡ some unknown_status) ⊎ (o ≡ some degraded)
    → ⊥
not_open o s given exhausted (inl e) = ground arith
not_open o s given exhausted (inr e) = ground arith

-- After a quota failure was recorded in a terminated file, no task whose quality was judged is
-- routed to a point whose runner is known and whose key is that of the failure until its cooldown
-- has ended, where the catalog has tier chains and the router asks the record file for the
-- availability, the root is absolute and the file is trusted and can be read when the router asks,
-- every date that is read can be written, dates are read back as they are written and the line of
-- the record too.
pub route_task-avoids :
    {N : Numbers} {C : Type 0} (i : Input N C) (chains : QualityTier → List String) (p : N.Number)
    (intent : Evidence N WorkloadIntent) (tier : Evidence N QualityTier) (chosen : Admission N C)
    (d : Dates) (j : JsonText) (model : String) (runner : RunnerEntry) (s : Signal) (now : ℕ)
    (a : Attempt) (file : List ℕ) (k : Quota) (then_ until : ℕ)
    (runners : String → Option RunnerEntry) (r : RunnerEntry)
    → ReadsIso d
    → InRange d
    → IsTerminated file
    → ((fs : Fields)
        → build_record d k (classify_launch_failure s) s now ≡ some fs
        → WritesLine j fs)
    → availability_key_for model runner ≡ some k
    → (record_launch_failure d j model runner s now a file).0 ≡ some (classed quota)
    → quota_until d s.retry_not_before now ≡ some until
    → then_ < until
    → i.availability
      ≡ logged_gate d j true trusted true runners then_
          (record_launch_failure d j model runner s now a file).1
    → i.catalog.tier_chains ≡ some chains
    → judge N i.response ≡ judged p intent tier
    → route_task i ≡ admitted chosen
    → runners chosen.selected.runner ≡ some r
    → availability_key_for chosen.selected.model r ≢ some k
route_task-avoids i chains p intent tier chosen d j model runner s now a file k then_ until runners
      r iso w t writes named h ends l gate c judgment routed found same =
    let after_file = (record_launch_failure d j model runner s now a file).1 in
    let q = chosen.selected in
    let (status, given, exhausted) =
      record_launch_failure-exhausts d j model runner s now a file q.model r k then_ until iso w t
        writes named same h ends l in
    let (floor, start, wanted, listed, is_open, compiled) =
      route_guarantee i chains p intent tier chosen c judgment routed in
    let asked : i.availability q ≡ some status.status =
      ap (λ g. g q) gate
      ∙ logged_gate_status d j true trusted true runners then_ after_file q r status found given in
    not_open (i.availability q) status.status asked exhausted is_open
