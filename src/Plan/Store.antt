-- ===== src/Plan/Store.antt =====
-- The tables `mission_plans` and `plan_nodes` of missions.db, and _plan_view over them.
use hermes_gpt.Prelude.{
  ℕ, String, Bool, Option, none, some, List, [], ◌∷◌, ◌&&◌, ◌==◌, if◌then◌else◌,
}
use hermes_gpt.Prelude.Rows.{select}
use hermes_gpt.Plan.State.{NodeState}
use hermes_gpt.Plan.Node.{Node}

-- PLAN_STATUSES
pub data PlanStatus : Type 0 where
  draft review approved rejected : PlanStatus

unfoldable pub plan_status_of : String → Option PlanStatus
plan_status_of name =
    if name == "draft"
    then some draft
    else if name == "review"
    then some review
    else if name == "approved"
    then some approved
    else if name == "rejected"
    then some rejected
    else none

-- A row of mission_plans; `nodes` are those of its plan_json.
pub record PlanRow : Type 0 where
  pub mission_id : String
  pub version : ℕ
  pub status : PlanStatus
  pub nodes : List Node
  pub updated_at : String

-- A row of plan_nodes.
pub record NodeRow : Type 0 where
  pub mission_id : String
  pub node_id : String
  pub contract_sha256 : String
  pub deps : List String
  pub state : NodeState
  pub lease_lock : String
  pub lease_expires : String
  pub epoch : ℕ
  pub failure_kind : String
  pub retries : ℕ
  pub updated_at : String

pub record PlanDb : Type 0 where
  pub mission_plans : List PlanRow
  pub plan_nodes : List NodeRow

-- WHERE mission_id=?
abbrev pub plan_key : String → PlanRow → Bool
plan_key m r = r.mission_id == m

-- WHERE mission_id=? AND node_id=?
abbrev pub node_key : String → String → NodeRow → Bool
node_key m n r = r.mission_id == m && r.node_id == n

-- A node of the plan view: its definition and its stored state.
pub record ViewNode : Type 0 where
  pub definition : Node
  pub open definition use {node_id, kind, parents, capability_req}
  pub state : NodeState

-- The nodes of the view: a definition without a row is passed over.
unfoldable pub view_nodes : PlanDb → String → List Node → List ViewNode
view_nodes db m [] = []
view_nodes db m (d ∷ ds) =
    let rest = view_nodes db m ds in
    elim (select (node_key m d.node_id) db.plan_nodes) [
      | none ↦ rest
      | some r ↦ record { definition = d; state = r.state } ∷ rest
    ]

-- `{n["node_id"]: n for n in nodes}`: of two nodes with one id the later counts.
unfoldable pub by_id : List ViewNode → String → Option ViewNode
by_id [] id = none
by_id (n ∷ ns) id = elim (by_id ns id) [
  | some m ↦ some m
  | none ↦ if n.node_id == id then some n else none
]
