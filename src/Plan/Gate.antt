-- ===== src/Plan/Gate.antt =====
-- operator_mission_plan.py: hermes_plan_approve_gate, the Owner's approval of a gated node.
-- Other writers may change the tables before every step and every read of the walk; `others` says how.
pub mod Path
pub mod Walk
pub mod Approve
use hermes_gpt.Prelude.{
  ℕ, suc, ◌+◌, String, Bool, true, false, not, ◌&&◌, ◌||◌, Option, none, some, List, [], ◌∷◌, ◌++◌,
  any, eqb, leb, ltb, ◌==◌, if◌then◌else◌,
}
use hermes_gpt.Prelude.Result.{Result, Error, ok, err}
use hermes_gpt.Prelude.Rows.{select}
use hermes_gpt.Policy.{OperatorPolicy, require_owner, effective_dry_run}
use hermes_gpt.Plan.Ids.{is_mission_id, is_node_id}
use hermes_gpt.Plan.State.{
  NodeState, pending, blockable, dispatched, running, awaiting_review, validated, awaiting_approval,
  completed, failed, paused, same_state,
}
use hermes_gpt.Plan.Node.{Kind, AuthClass, approval, high_impact}
use hermes_gpt.Plan.Store.{PlanRow, PlanDb, ViewNode, plan_key, view_nodes, by_id}
use hermes_gpt.Plan.Transition
use hermes_gpt.Plan.Transition.{node_transition}
use hermes_gpt.Plan.Gate.Path.{gate_approval_path, approvable}

-- The arguments of the call; `reason_length` as in a transition.
pub record Request : Type 0 where
  pub mission_id : String
  pub node_id : String
  pub reason_length : ℕ
  pub confirm : Bool
  pub dry_run : Bool
  pub expected_plan_version : Option ℕ

-- The codes of GateRefused, and of the errors that the call reports as one.
pub data Refusal : Type 0 where
  level_required confirm_required plan_version_conflict plan_node_not_found : Refusal
  not_a_gated_node node_state_not_approvable gate_not_reached : Refusal
  plan_gate_approve_rejected : Refusal

pub data Outcome : Type 0 where
  refused : Refusal → Outcome
  -- a dry run: the steps that would be made
  planned : List NodeState → Outcome
  -- GATE_STEP_FAILED: the states that were entered, and the cause if a step was refused
  step_failed : List NodeState → Option Error → Outcome
  approved : List NodeState → Outcome

pub data Verdict {ℓ} (A : Type ℓ) : Type ℓ where
  stop : Refusal → Verdict A
  pass : A → Verdict A

-- The first refusal decides.
infixl 10 ◌>>=◌ ◌>>◌
abbrev pub ◌>>=◌ {ℓ κ} : {A : Type ℓ} {B : Type κ} → Verdict A → (A → Verdict B) → Verdict B
◌>>=◌ (stop refusal) next = stop refusal
◌>>=◌ (pass value) next = next value

abbrev pub ◌>>◌ {ℓ} : {B : Type ℓ} → Verdict (Unit {0}) → Verdict B → Verdict B
check >> next = check >>= (λ _. next)

abbrev unless : Bool → Refusal → Verdict (Unit {0})
unless test r = elim test [ false ↦ stop r | true ↦ pass tt ]

pub owner_gate : Result (Unit {0}) → Verdict (Unit {0})
owner_gate (ok _) = pass tt
owner_gate (err _) = stop level_required

read_plan : Option PlanRow → Verdict PlanRow
read_plan none = stop plan_gate_approve_rejected
read_plan (some r) = pass r

expected : Option ℕ → ℕ → Bool
expected none v = true
expected (some e) v = eqb e v

-- _gate_node: the first node of the view with the id
unfoldable pub gate_node : List ViewNode → String → Verdict ViewNode
gate_node [] id = stop plan_node_not_found
gate_node (n ∷ ns) id = if n.node_id == id then pass n else gate_node ns id

is_approval : Kind → Bool
is_approval approval = true
is_approval _ = false

is_high_impact : AuthClass → Bool
is_high_impact high_impact = true
is_high_impact _ = false

unfoldable pub is_gated_node : ViewNode → Bool
unfolding is_approval is_high_impact
is_gated_node n = is_approval n.kind || is_high_impact n.capability_req.authorization_class

-- `by_id.get(parent, {}).get("state") == "completed"`
unfoldable pub parent_completed : List ViewNode → String → Bool
parent_completed ns p = elim (by_id ns p) [ none ↦ false | some m ↦ same_state m.state completed ]

steps_from : NodeState → Verdict (List NodeState)
steps_from s = elim (gate_approval_path s completed) [
  | none ↦ stop plan_gate_approve_rejected
  | some p ↦ pass p
]

-- What is decided before the first step: the steps, and the version that the first one expects.
unfoldable pub decide : OperatorPolicy → PlanDb → Request → Verdict (List NodeState × ℕ)
unfolding owner_gate read_plan expected steps_from
decide p db q = do
  owner_gate (require_owner p q.dry_run)
  unless (is_mission_id q.mission_id && is_node_id q.node_id) plan_gate_approve_rejected
  unless (leb q.reason_length 120) plan_gate_approve_rejected
  unless (effective_dry_run p q.dry_run || q.confirm) confirm_required
  plan ← read_plan (select (plan_key q.mission_id) db.mission_plans)
  unless (expected q.expected_plan_version plan.version) plan_version_conflict
  let view = view_nodes db q.mission_id plan.nodes
  node ← gate_node view q.node_id
  unless (is_gated_node node) not_a_gated_node
  unless (approvable node.state) node_state_not_approvable
  unless (not (any (λ parent. not (parent_completed view parent)) node.parents)) gate_not_reached
  steps ← steps_from node.state
  pass (steps, plan.version)

unfoldable pub state_name : NodeState → String
state_name pending = "pending"
state_name blockable = "blockable"
state_name dispatched = "dispatched"
state_name running = "running"
state_name awaiting_review = "awaiting_review"
state_name validated = "validated"
state_name awaiting_approval = "awaiting_approval"
state_name completed = "completed"
state_name failed = "failed"
state_name paused = "paused"

-- The call of hermes_plan_node_transition for one step. Its reason is "owner gate approval", and
-- after ": " the caller's reason where there is one.
abbrev pub step_request : Request → NodeState → ℕ → Transition.Request
step_request q t cas = record {
  mission_id = q.mission_id;
  node_id = q.node_id;
  target_state = state_name t;
  reason_length = if eqb q.reason_length 0 then 19 else 21 + q.reason_length;
  confirm = true;
  dry_run = false;
  expected_plan_version = some cas;
  bump_retries = false;
}

-- _gate_step_failed at a plan that can no longer be read: it looks up the step after those applied,
-- and where there is none the IndexError is reported as a refusal.
unread : List NodeState → List NodeState → Outcome
unread [] applied = refused plan_gate_approve_rejected
unread (_ ∷ _) applied = step_failed applied none

-- `for step in steps`, the k-th of them first. `others (k + k)` acts before the step, and
-- `others (suc (k + k))` before the plan is read again.
unfoldable pub walk :
    OperatorPolicy
    → (ℕ → PlanDb → PlanDb)
    → Request
    → String
    → ℕ
    → List NodeState
    → List NodeState
    → ℕ
    → PlanDb
    → Outcome × PlanDb
unfolding unread
walk p others q now k [] applied cas db = (approved applied, db)
walk p others q now k (t ∷ ts) applied cas db =
    let (reply, db') = node_transition p (others (k + k) db) (step_request q t cas) now in
    let seen = others (suc (k + k)) db' in
    let rest = λ (v : ℕ). walk p others q now (suc k) ts (applied ++ t ∷ []) v seen in
    elim reply [
      | err e ↦ (step_failed applied (some e), db')
      | ok _ ↦ elim (select (plan_key q.mission_id) seen.mission_plans) [
        | none ↦ (unread ts (applied ++ t ∷ []), seen)
        | some r ↦ rest r.version
      ]
    ]

pub finish :
    OperatorPolicy
    → (ℕ → PlanDb → PlanDb)
    → Request
    → String
    → PlanDb
    → Verdict (List NodeState × ℕ)
    → Outcome × PlanDb
finish p others q now db (stop r) = (refused r, db)
finish p others q now db (pass (steps, cas)) =
    if effective_dry_run p q.dry_run
    then (planned steps, db)
    else walk p others q now 0 steps [] cas db

-- hermes_plan_approve_gate
unfoldable pub approve_gate :
    OperatorPolicy → (ℕ → PlanDb → PlanDb) → PlanDb → Request → String → Outcome × PlanDb
unfolding finish
approve_gate p others db q now = finish p others q now db (decide p db q)
