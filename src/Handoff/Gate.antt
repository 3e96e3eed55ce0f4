-- ===== src/Handoff/Gate.antt =====
-- src/handoff-gate.ts: the runs that a host has bound, by identity. A run object is named by a
-- reference, since the map and the callers share it.
use herdr_tools.Base.{
  ℕ, Bool, true, false, String, ◌==◌, eqb, List, [], ◌∷◌, Option, none, some, if◌then◌else◌,
}
use herdr_tools.Base.Dict.{Dict, get, put, remove}
use herdr_tools.Handoff.{
  AcceptedArtifact, BoundIdentity, Watermark, Update, Run, Sidecar, Slices, Lifecycle,
  awaiting_handoff, recovery_pending, ValidationState, identity_key, bind, record_outcome,
}

pub record Gate : Type 0 where
  pub objects : Dict Run
  pub runs : Dict String
  pub sidecars : Dict Sidecar

-- `bind`, for the reference of the new object: none is a throw, or no sidecar.
unfoldable pub bind_run :
    String
    → String
    → String
    → BoundIdentity
    → Option Watermark
    → Update
    → Gate
    → Option String × Gate
unfolding get put bind identity_key
bind_run ref run_id path i w u g = elim (get run_id g.sidecars) [
  | none ↦ (none, g)
  | some s ↦
      let (bound, next) = bind run_id path i w u s in
      let stored = record g { sidecars = put run_id next g.sidecars } in
      elim bound [
        | none ↦ (none, stored)
        | some r ↦ (
          some ref,
          record stored { objects = put ref r g.objects; runs = put (identity_key i) ref g.runs },
        )
      ]
]

-- `lookup`.
unfoldable pub lookup : BoundIdentity → Gate → Option String
unfolding get identity_key
lookup i g = get (identity_key i) g.runs

abbrev is_ref : String → Option String → Bool
is_ref ref none = false
is_ref ref (some other) = other == ref

-- `drop`.
unfoldable pub drop : String → Gate → Gate
unfolding get remove identity_key
drop ref g = elim (get ref g.objects) [
  | none ↦ g
  | some r ↦
      if is_ref ref (get (identity_key r.identity) g.runs)
      then record g { runs = remove (identity_key r.identity) g.runs }
      else g
]

-- `HandoffRunEvidence`; the validation and the artifact are as the run has them.
pub record RunEvidence : Type 0 where
  pub run_id : String
  pub path : String
  pub state : Lifecycle
  pub validation : Option (ValidationState × Option String)
  pub artifact : Option AcceptedArtifact
  pub repair : Option (ℕ × Option ℕ)

-- `evidence`.
unfoldable pub evidence : Run → RunEvidence
evidence r = record {
  run_id = r.run_id;
  path = r.artifact_path;
  state = r.lifecycle;
  validation = r.last_validation;
  artifact = r.accepted_artifact;
  repair = if eqb r.attempts 0 then none else some (r.attempts, r.fence_version);
}

pub data UngatedReason : Type 0 where
  identity_unavailable identity_changed no_managed_run gate_unavailable : UngatedReason

pub data Inspection : Type 0 where
  gated : RunEvidence → Inspection
  ungated : UngatedReason → Inspection

-- `projectHandoffEvidence`.
unfoldable pub project_handoff_evidence :
    Option Gate → Option BoundIdentity → UngatedReason → Inspection
unfolding lookup evidence get
project_handoff_evidence none i why = ungated gate_unavailable
project_handoff_evidence (some g) none why = ungated why
project_handoff_evidence (some g) (some i) why = elim (lookup i g) [
  | none ↦ ungated no_managed_run
  | some ref ↦ elim (get ref g.objects) [
    | none ↦ ungated no_managed_run
    | some r ↦ gated (evidence r)
  ]
]

abbrev pub is_awaiting : Lifecycle → Bool
is_awaiting awaiting_handoff = true
is_awaiting _ = false

-- The recording of one run at the end of the session; its failure is swallowed.
unfoldable pub give_up : Slices → (String → Update) → String → Gate → Gate
unfolding get put record_outcome
give_up t answers ref g = elim (get ref g.objects) [
  | none ↦ g
  | some r ↦ elim (get r.run_id g.sidecars) [
    | none ↦ g
    | some s ↦
        let (done, next, side) =
          record_outcome t recovery_pending (some "manager_session_shutdown") (answers ref) r s in
        record g { objects = put ref next g.objects; sidecars = put r.run_id side g.sidecars }
  ]
]

abbrev pub awaits : String → Gate → Bool
awaits ref g = elim (get ref g.objects) [ none ↦ false | some r ↦ is_awaiting r.lifecycle ]

-- The runs that are awaited when `shutdown` is called.
unfoldable pub unresolved : Dict String → Gate → List String
unfolding get
unresolved [] g = []
unresolved ((key, ref) ∷ rest) g =
    let later = unresolved rest g in if awaits ref g then ref ∷ later else later

unfoldable pub give_up_each : Slices → (String → Update) → List String → Gate → Gate
unfolding give_up
give_up_each t answers [] g = g
give_up_each t answers (ref ∷ refs) g = give_up_each t answers refs (give_up t answers ref g)

-- `shutdown`, for what the store answers for each run.
unfoldable pub shutdown : Slices → (String → Update) → Gate → Gate
unfolding unresolved give_up_each
shutdown t answers g = give_up_each t answers (unresolved g.runs g) g
