-- ===== src/Plan/Gate/Approve.antt =====
-- What hermes_plan_approve_gate requires before it walks, and what it then achieves.
use mathlib.Core.Path.{subst}
use hermes_gpt.Prelude.{
  ℕ, ◌≤◌, String, ◌≡◌, refl, ◌⊎◌, inl, inr, Bool, true, false, not, some, List, [], ◌∷◌, arith, any,
  Option-cases, Bool-cases, ◌==◌, eq_iff,
}
use hermes_gpt.Prelude.Result.{ok}
use hermes_gpt.Prelude.Rows.{select}
use hermes_gpt.Policy.{OperatorPolicy, require_level, require_owner, effective_dry_run}
use hermes_gpt.Plan.State.{NodeState, completed}
use hermes_gpt.Plan.Node.{Node}
use hermes_gpt.Plan.Store.{PlanRow, PlanDb, ViewNode, plan_key, node_key, view_nodes}
use hermes_gpt.Plan.Transition.Follows.{node_state}
use hermes_gpt.Plan.Gate.{
  Request, approved, Verdict, pass, stop, Refusal, gate_node, is_gated_node, parent_completed,
  decide, finish, approve_gate,
}
use hermes_gpt.Plan.Gate.Path.{gate_approval_path, approvable, gate_approval_path-IsPath}
use hermes_gpt.Plan.Gate.Walk.{Writes, Quiet, walk_completes}

-- What has been found when the decision is to walk.
pub record Decided (p : OperatorPolicy) (db : PlanDb) (q : Request) (steps : List NodeState)
    (cas : ℕ) : Type 0 where
  pub plan : PlanRow
  pub node : ViewNode
  pub owner_mode : p.owner_mode_ready ≡ true
  pub owner_call : require_owner p q.dry_run ≡ ok tt
  pub short : q.reason_length ≤ 120
  pub stored : select (plan_key q.mission_id) db.mission_plans ≡ some plan
  pub version : plan.version ≡ cas
  pub in_view : gate_node (view_nodes db q.mission_id plan.nodes) q.node_id ≡ pass node
  pub gated : is_gated_node node ≡ true
  pub on_the_way : approvable node.state ≡ true
  pub parents :
      any
        (λ parent. not (parent_completed (view_nodes db q.mission_id plan.nodes) parent))
        node.parents
      ≡ false
  pub path : gate_approval_path node.state completed ≡ some steps

Verdict-cases {ℓ} :
    {A : Type ℓ} (v : Verdict A) → ((r : Refusal) × (v ≡ stop r)) ⊎ ((a : A) × (v ≡ pass a))
Verdict-cases (pass a) = inr (a, refl)
Verdict-cases (stop r) = inl (r, refl)

pub decide-Decided :
    (p : OperatorPolicy) (db : PlanDb) (q : Request) (steps : List NodeState) (cas : ℕ)
    → decide p db q ≡ pass (steps, cas)
    → Decided p db q steps cas
unfolding decide require_owner
decide-Decided p db q steps cas h =
    elim (Option-cases (select (plan_key q.mission_id) db.mission_plans)) [
      | inl no_plan ↦ absurd (ground arith)
      | inr (plan, stored) ↦
          elim (Verdict-cases (gate_node (view_nodes db q.mission_id plan.nodes) q.node_id)) [
            | inl (r, missing) ↦ absurd (ground arith)
            | inr (node, in_view) ↦ record {
              plan = plan;
              node = node;
              owner_mode = ground arith;
              owner_call = ground arith;
              short = ground arith;
              stored = stored;
              version = ground arith;
              in_view = in_view;
              gated = ground arith;
              on_the_way = ground arith;
              parents = ground arith;
              path = ground arith;
            }
          ]
    ]

-- The state in the view is the stored one.
view_state :
    (db : PlanDb) (m id : String) (ds : List Node) (n : ViewNode)
    → gate_node (view_nodes db m ds) id ≡ pass n
    → node_state db m id ≡ some n.state
unfolding gate_node view_nodes
view_state db m id [] n h = cc
view_state db m id (d ∷ ds) n h =
    elim (Option-cases (select (node_key m d.node_id) db.plan_nodes)) [
      | inl no_row ↦ view_state db m id ds n (ground (arith, no_row))
      | inr (r, row) ↦ elim (Bool-cases (d.node_id == id)) [
        | inl same ↦
            subst (λ i. node_state db m i ≡ some n.state) ((eq_iff d.node_id id).0 same)
              (ground (arith, row, same))
        | inr other ↦ view_state db m id ds n (ground (arith, row, other))
      ]
    ]

-- An owner's direct call has a policy under which each step is a write.
owner-Writes :
    (p : OperatorPolicy) (dry_run : Bool)
    → require_owner p dry_run ≡ ok tt
    → effective_dry_run p dry_run ≡ false
    → Writes p
unfolding require_owner
owner-Writes p dry_run h wet = record {
  level = unfold require_level in ground arith;
  mode = ground arith;
  enabled = ground arith;
}

module _ (p : OperatorPolicy) (others : ℕ → PlanDb → PlanDb) (db : PlanDb) (q : Request)
    (now : String) where
  finish_cases :
      (v : Verdict (List NodeState × ℕ))
      → ((finish p others q now db v).1 ≡ db)
        ⊎ ((steps : List NodeState) × (cas : ℕ) × (v ≡ pass (steps, cas))
            × (effective_dry_run p q.dry_run ≡ false))
  unfolding finish
  finish_cases (stop r) = inl refl
  finish_cases (pass (steps, cas)) = elim (Bool-cases (effective_dry_run p q.dry_run)) [
    | inl dry ↦ inl (rw dry refl)
    | inr wet ↦ inr (steps, cas, refl, wet)
  ]

  -- Whatever other writers do, either the call ends with the tables as it found them, or it was a
  -- direct call in Owner Mode on a gated node of the stored plan that stood on the way to
  -- `completed` with all its parents completed.
  pub approve_gate_guards :
      ((approve_gate p others db q now).1 ≡ db)
      ⊎ ((steps : List NodeState) × (cas : ℕ) × Decided p db q steps cas
          × (effective_dry_run p q.dry_run ≡ false))
  unfolding approve_gate
  approve_gate_guards = elim (finish_cases (decide p db q)) [
    | inl same ↦ inl same
    | inr (steps, cas, h, wet) ↦ inr (steps, cas, decide-Decided p db q steps cas h, wet)
  ]

  -- When the decision is to walk, the call is direct, and other writers leave the node's row and
  -- the plan's row alone, the call applies every planned step and the node ends at `completed`.
  pub approve_gate_completes :
      (steps : List NodeState) (cas : ℕ)
      → decide p db q ≡ pass (steps, cas)
      → effective_dry_run p q.dry_run ≡ false
      → Quiet q others
      → ((approve_gate p others db q now).0 ≡ approved steps)
        × (node_state (approve_gate p others db q now).1 q.mission_id q.node_id ≡ some completed)
  approve_gate_completes steps cas h wet quiet =
      let d = decide-Decided p db q steps cas h in
      let goal =
        walk_completes p (owner-Writes p q.dry_run d.owner_call wet) q now others quiet d.short 0
          steps [] cas db d.plan d.node.state d.stored d.version
          (view_state db q.mission_id q.node_id d.plan.nodes d.node d.in_view)
          (gate_approval_path-IsPath d.node.state completed steps d.path) in
      unfold approve_gate finish in rw (h, finish) (rw (wet, finish) goal)
