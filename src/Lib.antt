-- ===== src/Lib.antt =====
-- herdr-tools: a tool server and daemon with which a manager session launches coding agents in Herdr
-- panes, supervises them, and receives what happens to them. The parts that keep durable state or
-- decide are modelled here; the library has one module for each of them.
--
-- Intents (src/daemon/intents.ts): the launch-intent store, one JSON record for each manager session
-- and idempotency key. `createIntentStore` is `Intents.Op` with `step`; its methods are `begin`,
-- `mark_effecting`, `record_children`, `complete`, `fail`, `reconcile`, `recover_interrupted` and
-- `get_intent`. A `Store` maps manager directories to record files; an `Io` says what the environment
-- answers during one operation: directory trust, the flock, the clock, the minted launch identity, and
-- how far each write comes before a fault.
--
-- Mailbox (src/daemon/mailbox.ts): the per-manager event mailboxes. `State` holds the `unread/` and
-- `acked/` directories and the degradation fields of `daemon.json`. Event writes, parked gaps, launch
-- capacity, `list`, `read`, `ack` with its pruning, and the move of events are operations;
-- `Mailbox.Step` puts those that change state into histories. The caps are those of the source: 500
-- files and 8 MiB for a manager, 5000 files in all, 1000 acked files, 32 KiB for an event.
--
-- Routing (src/routing-policy.ts, src/router.ts): tiers, workload intervals and rankings, the reading
-- of the model's response over an abstract floating point arithmetic, and `routeTask` from the judged
-- tier through the chains of the catalog, the recovery exclusion and the availability loop to the
-- admission. The availability gate and the compilation of a point are functions of the input.
--
-- Availability (src/availability.ts, with the quota key of src/catalog.ts): the classes of launch
-- failures (`Failures`, with the table of codes in `Codes`), the key of a candidate (`Keys`), the record
-- that is written and read, and the record file (`Log`): `record_launch_failure` appends a line under
-- every answer of the file system, a write that stops in the middle included, and `availability` reads
-- the file and gives the status of a candidate. The file is its text, in code points; `JSON` and `Date`
-- are parameters. `Routed.logged_gate` is the gate that the router has where its caller gives none, for
-- a file that may be missing, untrusted or unreadable.
--
-- Supervision (src/supervision/protocol.ts, src/supervision/identity.ts): the validation of pane records
-- and events over parsed JSON, whether an observed pane or snapshot still shows the agent that was bound,
-- and when a move is followed. A throw is `none`, or the failure that the source turns it into.
-- `Events` (src/supervision/events.ts) is the bounded log of material events with its marks, and the
-- bounded histories; `take_pending` is what the supervisor reads of it. `SelfClose`
-- (src/supervision/self-close.ts) is the tracker that keeps a close of this host from waking its own
-- manager: its state is the variables of `createSelfCloseTracker` and what came out of it, promises
-- resolved and listeners called; `Call` puts its operations and the firing of a timer into histories.
-- A timer may fire at any time.
--
-- Handoff (src/handoff-gate.ts): the gate between a managed run and the artifact that its child writes.
-- A `Run` is one host's view, a `Sidecar` the durable state of the run (src/handoff.ts); `bind`,
-- `validate`, `begin_repair`, `record_outcome` and `mark_cycle` change it under every answer of
-- `updateHandoffState`, which may also write the state and then fail. `Gate` is the map of a host's
-- runs, with `lookup`, `drop`, the evidence projection and `shutdown`; references name the run objects
-- that the map and the callers share.
--
-- How they interact: a launch first routes its Task, begins an intent, asks the mailbox for capacity,
-- acts, and closes the intent; supervision follows the identity of each child and writes its events to
-- the mailbox. A launch that fails is recorded with the availability, which the router asks for the
-- points it may choose. The tools that drive these calls are not modelled.
--
-- Base has Boolean tests and lists on the native numbers, texts by code points, dictionaries that keep
-- the order of their keys, a stable sort, and lists of different names. All loops are structural
-- recursion, so no fuel is needed. Numbers are natural numbers. Times are texts in
-- the stores, and milliseconds in the tracker and the availability, where none is before 1970. Texts
-- compare by code point, which agrees with the source on the basic plane. Flocks make an operation
-- atomic: an operation is one step, and histories are lists of steps. Digests, JSON, redaction, clocks, random identifiers
-- and the file system's answers are parameters. Log lines and error messages are not kept.
--
-- In the mailbox, the sections of `withMailboxes` and the faults of directory syncs after a rename are not
-- modelled, nor is the rename of an ack that fails. In the router, the evidence of an abstention and the
-- selection of tools for a runner are left out. In the tracker, what a listener does is left out. In
-- supervision, the framing of socket lines and the provisional identity of an agent without a session
-- are left out. In the handoff gate, the capture of the trace history is an argument.
--
-- Not modelled: process and socket plumbing of the daemon, the command line, the MCP and Pi hosts, the
-- terminal interface, the tools, the supervisor's reconciliation, reviewers, traces and telemetry.
pub mod Base
pub mod Intents
pub mod Mailbox
pub mod Routing
pub mod Supervision
pub mod Availability
pub mod Handoff
