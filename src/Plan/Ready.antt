-- ===== src/Plan/Ready.antt =====
-- operator_mission_plan.py: _ready_node_ids, the nodes that hermes_plan_review reports as ready.
pub mod Progress
use hermes_gpt.Prelude.{
  ℕ, String, ◌≡◌, ◌↔◌, refl, Bool, true, false, ◌&&◌, Option, none, some, List, [], ◌∷◌, arith, all,
  if◌then◌else◌, eq_iff, ◌==◌, ◌<◌, Bool-cases, Option-cases, inl, inr,
}
use hermes_gpt.Prelude.Names.{count, contains}
use hermes_gpt.Plan.State.{NodeState, pending, completed, failed}
use hermes_gpt.Plan.Node.{Node}
use hermes_gpt.Plan.Store.{ViewNode, by_id}

is_pending : NodeState → Bool
is_pending pending = true
is_pending _ = false

is_completed : NodeState → Bool
is_completed completed = true
is_completed _ = false

-- `parent_id in by_id and by_id[parent_id]["state"] == "completed"`
parent_completed : List ViewNode → String → Bool
unfolding is_completed
parent_completed ns p = elim (by_id ns p) [ none ↦ false | some m ↦ is_completed m.state ]

is_ready : List ViewNode → ViewNode → Bool
unfolding is_pending parent_completed
is_ready ns n = is_pending n.state && all (parent_completed ns) n.parents

ready_among : List ViewNode → List ViewNode → List String
unfolding is_ready
ready_among ns [] = []
ready_among ns (n ∷ ms) =
    let rest = ready_among ns ms in if is_ready ns n then n.node_id ∷ rest else rest

-- _ready_node_ids(nodes)
unfoldable pub ready_node_ids : List ViewNode → List String
unfolding ready_among
ready_node_ids ns = ready_among ns ns
