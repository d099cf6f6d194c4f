-- ===== src/Examples/PlanNodes.antt =====
-- Node transitions on a small table.
use hermes_gpt.Prelude.{String, ◌≡◌, ◌≢◌, refl, true, false, some, List, [], ◌∷◌, arith}
use hermes_gpt.Prelude.Result.{ok, err, value_error}
use hermes_gpt.Prelude.Rows.{select, update}
use hermes_gpt.Policy.{effective_dry_run}
use hermes_gpt.Plan.State.{
  NodeState, pending, completed, awaiting_approval, failed, is_terminal, node_state_of,
  validate_node_transition,
}
use hermes_gpt.Plan.State.Graph.{Within, needed}
use hermes_gpt.Plan.Store.{draft, PlanRow, NodeRow, PlanDb, plan_key}
use hermes_gpt.Plan.Transition.{Request, checks, node_transition, node_transition_finish}
use hermes_gpt.Plan.Transition.Follows.{
  node_state, Call, serve, history, serve_completed, serve_terminal,
}
use hermes_gpt.Plan.Transition.Errors.{IsErr, error_writes_nothing, late_rejection, stale_version}
use hermes_gpt.Policy.{effective_dry_run}
use hermes_gpt.Examples.Operators.{worker}

abbrev pub row : String → NodeState → NodeRow
row id state = record {
  mission_id = "msn-1";
  node_id = id;
  contract_sha256 = "";
  deps = [];
  state = state;
  lease_lock = "lock";
  lease_expires = "2026-01-01";
  epoch = 0;
  failure_kind = "";
  retries = 0;
  updated_at = "t0";
}

abbrev pub table : PlanDb
table = record {
  mission_plans =
      record { mission_id = "msn-1"; version = 3; status = draft; nodes = []; updated_at = "t0" }
      ∷ [];
  plan_nodes = row "a" awaiting_approval ∷ row "b" pending ∷ row "c" failed ∷ [];
}

abbrev approve : Request
approve = record {
  mission_id = "msn-1";
  node_id = "a";
  target_state = "completed";
  reason_length = 12;
  confirm = true;
  dry_run = false;
  expected_plan_version = some 3;
  bump_retries = true;
}

approve_works :
    (node_transition worker table approve "t1").0
    ≡ ok (record {
      from_state = awaiting_approval;
      to_state = completed;
      changed = true;
      dry_run = false;
    })
unfolding node_transition node_transition_finish checks select update node_state_of
    validate_node_transition effective_dry_run
approve_works = refl

a_state : node_state table "msn-1" "a" ≡ some awaiting_approval
unfolding select
a_state = refl

b_state : node_state table "msn-1" "b" ≡ some pending
unfolding select
b_state = refl

abbrev calls : List Call
calls = record { policy = worker; request = approve; now = "t1" } ∷ []

a_completed : node_state (serve table calls) "msn-1" "a" ≡ some completed
unfolding serve node_transition node_transition_finish checks select update node_state_of
    validate_node_transition effective_dry_run
a_completed = refl

serve_completed_example : Within (needed awaiting_approval) (history table calls "msn-1" "a")
serve_completed_example = serve_completed table calls "msn-1" "a" a_state a_completed

c_state : node_state table "msn-1" "c" ≡ some failed
unfolding select
c_state = refl

serve_terminal_example : node_state (serve table calls) "msn-1" "c" ≡ some failed
unfolding is_terminal
serve_terminal_example = serve_terminal table calls "msn-1" "c" c_state refl

abbrev illegal : Request
illegal = record approve { node_id = "b" }

illegal_refused : (node_transition worker table illegal "t1").0 ≡ err value_error
unfolding node_transition node_transition_finish checks select node_state_of
    validate_node_transition
illegal_refused = refl

error_writes_nothing_example : (node_transition worker table illegal "t1").1 ≡ table
error_writes_nothing_example =
    error_writes_nothing worker table illegal "t1" illegal_refused (omega arith)

abbrev preview : Request
preview = record approve { dry_run = true }

abbrev wordy : Request
wordy = record approve { reason_length = 201 }

wordy-accepted : checks worker table wordy ≡ ok (awaiting_approval, completed)
unfolding checks select node_state_of validate_node_transition
wordy-accepted = refl

late_rejection_example :
    ((node_transition worker table wordy "t1").0 ≡ err value_error)
    × (node_state (node_transition worker table wordy "t1").1 "msn-1" "a" ≡ some completed)
unfolding effective_dry_run
late_rejection_example = late_rejection worker table wordy "t1" wordy-accepted refl (omega arith)

abbrev stale : Request
stale = record approve { expected_plan_version = some 2 }

stale_row : (r : PlanRow) → select (plan_key "msn-1") table.mission_plans ≡ some r → r.version ≢ 2
unfolding select
stale_row r h = ground arith

stale_version_example :
    IsErr (node_transition worker table stale "t1").0
    × ((node_transition worker table stale "t1").1 ≡ table)
stale_version_example = stale_version worker table stale "t1" 2 refl stale_row
