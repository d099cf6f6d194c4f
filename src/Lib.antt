-- ===== src/Lib.antt =====
-- A model of the operator core of hermes-gpt, a sidecar that exposes an agent's missions, plans,
-- budgets and controller passes to MCP clients.
--
-- The parts, and the files that model them:
--
-- * operator_policy.py is Policy: the levels, the policy snapshot and the gates that every mutating
--   tool calls first.
-- * operator_mission_plan.py is Plan: the node state machine (Plan.State), the stored rows
--   (Plan.Store), the validation of a plan's graph and its topological order (Plan.Dag), the ready
--   nodes (Plan.Ready), hermes_plan_node_transition (Plan.Transition) and hermes_plan_approve_gate
--   (Plan.Gate), which calls it once for each step.
-- * operator_mission_runtime.py is Mission: the statuses and the tables (Mission.Defs), what the
--   workflow and delegation stores say of an attachment (Mission.Stores), the observation and the
--   status that follows (Mission.Observe), the guards (Mission.Guards, with those of
--   operator_delegations.py), the calls that write attachments (Mission.Attach and its Bridges), and
--   hermes_mission_reconcile, hermes_mission_transition and hermes_mission_approve
--   (Mission.Lifecycle). A handler reads at one moment and writes at a later one: a World says what
--   its reads find, and what other writers do to missions.db in between.
-- * operator_mission_budget.py is Budget: the envelope and its policy (Budget.Defs), hermes_budget_set
--   and hermes_budget_record (Budget.Spend), and enforce_budget_breaker (Budget.Breaker), which pauses
--   a mission through Mission.Lifecycle.Transition. Amounts are whole
--   units, up to a maximum below which a float adds them exactly.
-- * operator_controller.py is Controller: the lease of a pass (Controller.Lease), the queue of
--   triggers (Controller.Triggers), and the node that a pass acts on (Controller.Frontier).
-- * operator_failure_semantics.py is Failure: the envelope of an observation, the ladder of steps to a
--   proposed recovery (Failure.Ladder), and classify (Failure.Classify).
-- * fabric_write_guard.py is Claims: the table write_claims and the class WriteClaims. Claims.Spec is
--   its contract, a lock for each conflict domain with the number of its last tenure, and
--   Claims.Table reads the rows as such locks.
-- * operator_attention_delivery.py is Relay: run_once, with the choice of the inbox's items
--   (Relay.Inbox), what it does for one target (Relay.Target), and the loop and the saved state
--   (Relay.Run). What a backend answers to a text is a parameter, for it is a child process.
-- * operator_placement.py is Placement: the targets from the manifest (Placement.Targets), the hard
--   filters and score_targets, which ranks the targets for a node. The scores are an argument, since
--   they are floating-point numbers; they are finite.
-- * operator_delegations.py is Delegations: hermes_delegation_dispatch (Delegations.Dispatch),
--   hermes_delegation_cancel (Delegations.Cancel) and hermes_delegation_reconcile
--   (Delegations.Reconcile), each after its policy gates, and their runs together (Delegations.Run).
--   The guards by which a mission asks for its delegations are in Mission.Guards.
--
-- State is passed explicitly. A table of missions.db is a list of rows (Prelude.Rows): SELECT takes
-- the first match, UPDATE and DELETE go by a test. A handler takes the policy, the tables, its
-- arguments and the time, and returns its reply beside the new tables; an exception is a value, and
-- the JSON of a reply is a record of the fields that matter. Names are `String`; a text of which
-- the code reads only the length is given by its length after `strip`. The environment is given as
-- __init__ has read and normalised it.
--
-- Where one call works in several transactions, and other processes may write between them, the call
-- is a state machine: a step is one transaction, or one call of another component, whose answer is an
-- input. Delegations.Run steps any number of such calls on one table, in any order; a call that is not
-- stepped again has crashed. Times are whole numbers of seconds; a time that a stored text does not
-- write is `none`.
--
-- Bounds and fuel: the queue loops of Plan.Dag run on as much fuel as the plan has nodes, for a node
-- enters a queue once; the search of Plan.Gate.Path has ten states to visit, each
-- queued at most once. _resolve_successor runs on its own bound of 16 steps.
--
-- Not modelled: JSON and the parsing of configuration files, the texts of messages, hashing,
-- redaction, audit records and live events, file and process handling (backends, runners, systemd
-- units), floating-point scores, the web interface, and the parts that PROJECT.json lists as not
-- modelled.
pub mod Prelude
pub mod Policy
pub mod Plan
pub mod Mission
pub mod Budget
pub mod Controller
pub mod Failure
pub mod Claims
pub mod Relay
pub mod Placement
pub mod Delegations
pub mod Examples
