-- ===== src/Examples/PlanGates.antt =====
-- The Owner approves a gated node of a small plan.
use hermes_gpt.Prelude.{
  ℕ, String, ◌≡◌, ◌⊎◌, ◌≤◌, ◌≢◌, refl, true, false, some, none, List, [], ◌∷◌, arith, eq_iff, any,
  length,
}
use hermes_gpt.Prelude.Names.{distinct-Distinct}
use hermes_gpt.Prelude.Result.{ok}
use hermes_gpt.Prelude.Rows.{select}
use hermes_gpt.Policy.{effective_dry_run, require_owner}
use hermes_gpt.Plan.State.{
  NodeState, pending, completed, dispatched, running, awaiting_review, validated, awaiting_approval,
  validate_node_transition,
}
use hermes_gpt.Plan.State.Graph.{Run, here, step, trace}
use hermes_gpt.Plan.Ids.{is_mission_id, is_node_id}
use hermes_gpt.Plan.Node.{Node, approval}
use hermes_gpt.Plan.Store.{draft, PlanDb, ViewNode, view_nodes, by_id}
use hermes_gpt.Plan.Dag.{ids, validate_node_dag, drain, release, sources}
use hermes_gpt.Plan.Dag.Order.{IsTopological, validate_node_dag_iff}
use hermes_gpt.Plan.Ready.{ready_node_ids}
use hermes_gpt.Plan.Ready.Progress.{definitions, Undisturbed, ready_progress}
use hermes_gpt.Plan.Transition.Follows.{node_state}
use hermes_gpt.Plan.Gate.{
  Request, approved, pass, gate_node, is_gated_node, parent_completed, decide, approve_gate,
}
use hermes_gpt.Plan.Gate.Path.{
  gate_approval_path, approvable, excluded, IsPath, gate_approval_path_shortest,
}
use hermes_gpt.Plan.Gate.Walk.{Quiet}
use hermes_gpt.Plan.Gate.Approve.{Decided, approve_gate_guards, approve_gate_completes}
use hermes_gpt.Examples.Operators.{owner_policy}
use hermes_gpt.Examples.PlanDags.{node}
use hermes_gpt.Examples.PlanNodes.{row}

abbrev sign_off : Node
sign_off = record (node "sign_off" ("build" ∷ [])) { kind = approval; owner = "owner" }

abbrev release_plan : PlanDb
release_plan = record {
  mission_plans =
      record {
        mission_id = "msn-1";
        version = 2;
        status = draft;
        nodes = node "build" [] ∷ sign_off ∷ [];
        updated_at = "t0";
      }
      ∷ [];
  plan_nodes = row "build" completed ∷ row "sign_off" pending ∷ [];
}

abbrev request : Request
request = record {
  mission_id = "msn-1";
  node_id = "sign_off";
  reason_length = 4;
  confirm = true;
  dry_run = false;
  expected_plan_version = none;
}

abbrev forward : List NodeState
forward = dispatched ∷ running ∷ awaiting_review ∷ validated ∷ awaiting_approval ∷ completed ∷ []

pending_path : gate_approval_path pending completed ≡ some forward
unfolding gate_approval_path
pending_path = refl

decision : decide owner_policy release_plan request ≡ pass (forward, 2)
unfolding decide require_owner effective_dry_run is_mission_id is_node_id select view_nodes
    gate_node is_gated_node parent_completed by_id gate_approval_path approvable
decision = refl

abbrev nobody : ℕ → PlanDb → PlanDb
nobody k d = d

nobody-Quiet : Quiet request nobody
nobody-Quiet = record { node = λ k d. refl; plan = λ k d. refl }

approve_gate_completes_example :
    ((approve_gate owner_policy nobody release_plan request "t1").0 ≡ approved forward)
    × (node_state (approve_gate owner_policy nobody release_plan request "t1").1 "msn-1" "sign_off"
        ≡ some completed)
unfolding effective_dry_run
approve_gate_completes_example =
    approve_gate_completes owner_policy nobody release_plan request "t1" forward 2 decision refl
      nobody-Quiet

approve_gate_guards_example :
    ((approve_gate owner_policy nobody release_plan request "t1").1 ≡ release_plan)
    ⊎ ((steps : List NodeState) × (cas : ℕ) × Decided owner_policy release_plan request steps cas
        × (effective_dry_run owner_policy false ≡ false))
approve_gate_guards_example = approve_gate_guards owner_policy nobody release_plan request "t1"

straight : Run awaiting_approval completed
unfolding validate_node_transition
straight = step completed refl here

gate_approval_path_shortest_example :
    (p : List NodeState) × (gate_approval_path awaiting_approval completed ≡ some p)
    × IsPath awaiting_approval p completed
    × (any excluded p ≡ false)
    × (length p ≤ length (trace straight))
unfolding approvable
gate_approval_path_shortest_example = gate_approval_path_shortest awaiting_approval refl straight

abbrev view : List ViewNode
view =
    record { definition = node "build" []; state = completed }
    ∷ record { definition = sign_off; state = pending }
    ∷ []

view_accepted : validate_node_dag (definitions view) (ids (definitions view)) ≡ ok tt
unfolding validate_node_dag drain release sources
view_accepted = refl

view_order : (order : List String) × IsTopological (definitions view) order
view_order =
    (validate_node_dag_iff (definitions view) (distinct-Distinct (ids (definitions view)) refl)).0
      view_accepted

view-Undisturbed : Undisturbed view
unfolding by_id
view-Undisturbed x m h = ground (arith, eq_iff "build" x, eq_iff "sign_off" x)

sign_off_found : by_id view "sign_off" ≡ some (record { definition = sign_off; state = pending })
unfolding by_id
sign_off_found = refl

ready_progress_example : ready_node_ids view ≢ []
ready_progress_example =
    ready_progress view view_order.0 view_order.1 view-Undisturbed "sign_off"
      (record { definition = sign_off; state = pending }) sign_off_found refl
