-- ===== src/Handoff/Tests.antt =====
-- The handoff gate on a concrete run.
use mathlib.Core.Option.{some_inj}
use herdr_tools.Base.Dict.{get}
use herdr_tools.Handoff.{identity_key}
use herdr_tools.Handoff.Gate.{Gate, awaits, shutdown}
use herdr_tools.Handoff.Shutdown.{HasSidecars, shutdown_settles}
use herdr_tools.Base.{
  if_rule, is_some, subst, false, ◌==◌, ◌+◌, ◌≤◌, ◌≡◌, refl, true, List, [], ◌∷◌, none, some,
  length, arith, All, eq_iff,
}
use herdr_tools.Handoff.{
  Sidecar, Run, BoundIdentity, Slices, Artifact, found, committed, thrown, awaiting_handoff,
  handed_off, done_status, max_repair_attempts, fence_of, stale, validate, begin_cycle,
}
use herdr_tools.Handoff.{handoff_error, artifact_missing, unsynced, refused}
use herdr_tools.Handoff.Cycles.{Look, looks, IsOld, NotAccepted, Accepts, looks-Accepts}
use herdr_tools.Handoff.Fences.{
  Act, binds, validates, repairs, records, acts, Rising, IsFencedSoundly, acts-Rising,
}

abbrev child : BoundIdentity
child = record {
  pane_id = "p1";
  terminal_id = "t1";
  agent_name = "worker";
  agent_kind = "pi";
  agent_session = record { source = "herdr"; agent = "pi"; kind = "id"; value = "s1" };
  agent_id = none;
}

abbrev allocated : Sidecar
allocated = record {
  pane_id = none;
  terminal_id = none;
  agent_id = none;
  native_session = none;
  lifecycle = awaiting_handoff;
  watermark = none;
  detail = none;
  sha256 = none;
  bytes = none;
  version = 0;
  status = none;
  mtime_ms = none;
  trace_history = none;
  attempts = 0;
  fence = none;
}

abbrev view : Run
view = record {
  run_id = "r1";
  artifact_path = "/r1/handoff.md";
  identity = child;
  cycle_open = true;
  accepted_artifact = none;
  lifecycle = awaiting_handoff;
  last_validation = none;
  attempts = 0;
  fence_version = none;
}

abbrev whole : Slices
whole = record { slice = λ n s. s }

abbrev artifact : Artifact
artifact = record { sha256 = "aa"; bytes = 10; status = done_status; mtime_ms = 5 }

-- Two hosts ask for a repair of the first version, one of them after a failed write; the artifact is
-- accepted, and its version can be repaired again.
abbrev day : List Act
day =
    binds "r1" "/r1/handoff.md" child none committed
    ∷ repairs "k0" thrown view
    ∷ repairs "k1" committed view
    ∷ repairs "k2" committed view
    ∷ validates whole (found artifact) none committed view
    ∷ repairs "k3" committed view
    ∷ records whole handed_off none committed view
    ∷ []

day_fences :
    (acts day allocated).0
    ≡ record { version = 0; token = "k1" } ∷ record { version = 1; token = "k3" } ∷ []
unfolding acts
day_fences = refl

allocated_soundly : IsFencedSoundly allocated
allocated_soundly = record { bounded = omega arith; behind = tt }

acts-Rising_example :
    Rising (fence_of allocated.fence) (acts day allocated).0
    × (allocated.attempts + length (acts day allocated).0 ≤ max_repair_attempts)
acts-Rising_example = acts-Rising day allocated allocated_soundly

abbrev second_look : Run
second_look = begin_cycle (validate whole (found artifact) none committed view allocated).1

-- Once the child works again, the same content is stale.
same_content_stale :
    (validate whole
      (found artifact)
      none
      committed
      second_look
      (validate whole (found artifact) none committed view allocated).2).0
    ≡ some (record { state = stale; reason = none; artifact = none })
unfolding validate begin_cycle
same_content_stale = refl

abbrev taken : Sidecar
taken = (validate whole (found artifact) none committed view allocated).2

abbrev rewritten : Artifact
rewritten = record { sha256 = "bb"; bytes = 12; status = done_status; mtime_ms = 9 }

-- The old content twice, once with a write whose directory is not synced, an unreadable file, and
-- the new content at a store that refuses.
abbrev idle_looks : List Look
idle_looks =
    record { read = found artifact; history = none; update = committed }
    ∷ record { read = handoff_error artifact_missing none; history = none; update = committed }
    ∷ record { read = found artifact; history = none; update = unsynced }
    ∷ record { read = found rewritten; history = none; update = refused }
    ∷ []

looks-Accepts_example :
    All NotAccepted (looks whole idle_looks (begin_cycle view) taken).0
    × ((looks whole idle_looks (begin_cycle view) taken).2 ≡ taken)
    × Accepts rewritten taken (
        validate whole
          (found rewritten)
          none
          committed
          (looks whole idle_looks (begin_cycle view) taken).1
          (looks whole idle_looks (begin_cycle view) taken).2)
unfolding validate IsOld
looks-Accepts_example =
    looks-Accepts whole idle_looks rewritten none view taken "aa" refl
      (refl, (tt, (refl, (tt, tt)))) (ground (arith, eq_iff "bb" "aa"))

-- A host with one bound run.
abbrev one_run : Gate
one_run = record {
  objects = ("o1", view) ∷ [];
  runs = (identity_key child, "o1") ∷ [];
  sidecars = ("r1", allocated) ∷ [];
}

one_run-HasSidecars : HasSidecars one_run
unfolding get
one_run-HasSidecars ref r h =
    if_rule (λ o. o ≡ some r → is_some (get r.run_id one_run.sidecars) ≡ true) ("o1" == ref) _ _
      (λ hit q.
        subst (λ (x : Run). is_some (get x.run_id one_run.sidecars) ≡ true) (some_inj.0 q) refl)
      (λ miss q. absurd (ground arith)) h

shutdown_settles_example : awaits "o1" (shutdown whole (λ ref. committed) one_run) ≡ false
unfolding get identity_key
shutdown_settles_example =
    shutdown_settles whole (λ ref. committed) one_run (identity_key child) "o1" one_run-HasSidecars
      (λ r. refl) refl
