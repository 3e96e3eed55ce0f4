-- ===== src/Supervision/Coherence.antt =====
-- The evidence of a snapshot: what a unique target of src/supervision/identity.ts guarantees.
use herdr_tools.Base.{
  ◌≡◌, refl, ◌≤◌, Bool, true, false, String, List, [], ◌∷◌, Option, some, none, arith, length, ap,
  sym, is_some, not, eqb, if◌then◌else◌,
}
use herdr_tools.Supervision.Json.{Fields}
use herdr_tools.Supervision.Protocol.{PaneRecord, parse_pane_fields}
use herdr_tools.Supervision.Identity.{
  Occupant, TargetFailure, target_identity_contradiction, invalid, unique, AgentFields,
  agent_fields, either_name,
}
use herdr_tools.Supervision.Target.{
  of_pane, classify_records, classify_snapshot_target, join_target_records, join_pane, join_agent,
  records_disagree, joined_occupant, lone_occupant,
}

chosen_unique :
    (b : Bool) (why : TargetFailure) (x o : Occupant)
    → (if b then invalid why else unique x) ≡ unique o
    → (b ≡ false) × (o ≡ x)
chosen_unique true why x o h = absurd (ground arith)
chosen_unique false why x o h = let e : x ≡ o = ground arith in (refl, sym e)

join_agent-unique :
    (p : PaneRecord) (name : Option String) (a : Option AgentFields) (o : Occupant)
    → join_agent p name a ≡ unique o
    → (fields : AgentFields) × (a ≡ some fields)
      × (records_disagree name p fields ≡ false)
      × (o ≡ joined_occupant name p fields)
unfolding join_agent
join_agent-unique p name none o h = absurd (ground arith)
join_agent-unique p name (some a) o h =
    let (d, e) =
      chosen_unique (records_disagree name p a) target_identity_contradiction
        (joined_occupant name p a) o h in
    (a, refl, d, e)

join_pane-present :
    (p : Option PaneRecord) (name : Option (Option String)) (agent : Option Fields) (o : Occupant)
    → join_pane p name agent ≡ unique o
    → (q : PaneRecord) × (p ≡ some q)
      × (o.pane.pane_id ≡ q.pane_id)
      × (o.pane.terminal_id ≡ q.terminal_id)
      × (o.pane.revision ≡ q.revision)
      × (o.agent_present ≡ is_some agent)
unfolding join_pane
join_pane-present none name agent o h = absurd (ground arith)
join_pane-present (some p) none agent o h = absurd (ground arith)
join_pane-present (some p) (some name) none o h =
    let e : lone_occupant name p ≡ o = ground arith in
    (
      p,
      refl,
      ap (λ x. x.pane.pane_id) (sym e),
      ap (λ x. x.pane.terminal_id) (sym e),
      ap (λ x. x.pane.revision) (sym e),
      ap (λ x. x.agent_present) (sym e),
    )
join_pane-present (some p) (some name) (some agent) o h =
    let (a, f, d, e) = join_agent-unique p name (agent_fields agent) o h in
    (
      p,
      refl,
      ap (λ x. x.pane.pane_id) e,
      ap (λ x. x.pane.terminal_id) e,
      ap (λ x. x.pane.revision) e,
      ap (λ x. x.agent_present) e,
    )

-- A unique target is what one pane record says, with at most one agent record.
unfoldable pub IsOnly : List Fields → List Fields → Occupant → Type 0
IsOnly panes agents o =
    (pane : Fields) × (record_of : PaneRecord) × (panes ≡ pane ∷ [])
    × (length agents ≤ 1)
    × (parse_pane_fields pane ≡ some record_of)
    × (o.pane.pane_id ≡ record_of.pane_id)
    × (o.pane.terminal_id ≡ record_of.terminal_id)
    × (o.pane.revision ≡ record_of.revision)
    × (o.agent_present ≡ not (eqb (length agents) 0))

classify_records-IsOnly :
    (panes agents : List Fields) (o : Occupant)
    → classify_records panes agents ≡ unique o
    → IsOnly panes agents o
unfolding classify_records join_target_records IsOnly
classify_records-IsOnly [] [] o h = absurd (ground arith)
classify_records-IsOnly [] (a ∷ []) o h = absurd (ground arith)
classify_records-IsOnly [] (a ∷ b ∷ rest) o h = absurd (ground arith)
classify_records-IsOnly (p ∷ q ∷ ps) agents o h = absurd (ground arith)
classify_records-IsOnly (p ∷ []) (a ∷ b ∷ rest) o h = absurd (ground arith)
classify_records-IsOnly (p ∷ []) [] o h =
    let (q, e, i, t, r, n) =
      join_pane-present (parse_pane_fields p) (either_name "agent_name" "name" p) none o h in
    (p, q, refl, ground arith, e, i, t, r, n)
classify_records-IsOnly (p ∷ []) (a ∷ []) o h =
    let (q, e, i, t, r, n) =
      join_pane-present (parse_pane_fields p) (either_name "agent_name" "name" p) (some a) o h in
    (p, q, refl, ground arith, e, i, t, r, n)

-- A snapshot target is unique only where exactly one pane record and at most one agent record name
-- the pane; the occupant has the pane, terminal and revision of that record.
pub classify_snapshot_target-IsOnly :
    (panes agents : List Fields) (id : String) (o : Occupant)
    → classify_snapshot_target panes agents id ≡ unique o
    → IsOnly (of_pane id panes) (of_pane id agents) o
unfolding classify_snapshot_target
classify_snapshot_target-IsOnly panes agents id o h =
    classify_records-IsOnly (of_pane id panes) (of_pane id agents) o h
