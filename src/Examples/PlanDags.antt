-- ===== src/Examples/PlanDags.antt =====
-- Plans with and without a topological order.
use hermes_gpt.Prelude.{String, ◌≡◌, refl, ◌↔◌, some, List, [], ◌∷◌}
use hermes_gpt.Prelude.Names.{Distinct, distinct-Distinct}
use hermes_gpt.Prelude.Result.{ok, err, value_error}
use hermes_gpt.Plan.Node.{Node, single, reversible_write}
use hermes_gpt.Plan.Dag.{ids, validate_node_dag, release, drain, sources}
use hermes_gpt.Plan.Dag.Order.{IsTopological, validate_node_dag_iff}
use hermes_gpt.Plan.Dag.Topological.{topological_order, DistinctParents, topological_order_sorts}

abbrev pub node : String → List String → Node
node id parents = record {
  node_id = id;
  kind = single;
  owner = "dev";
  parents = parents;
  objective_len = 0;
  objective_sha256 = "";
  contract_ref = "";
  contract_sha256 = "";
  capability_req = record { profile = "dev"; skills = []; authorization_class = reversible_write };
  budget = record { est_minutes = 60; est_tokens = 200000 };
  expected_artifacts = [];
  artifact_requirements = [];
}

-- b and c wait for a, d for both; d stands first in the document.
abbrev pub diamond : List Node
diamond = node "d" ("b" ∷ "c" ∷ []) ∷ node "a" [] ∷ node "b" ("a" ∷ []) ∷ node "c" ("a" ∷ []) ∷ []

abbrev cyclic : List Node
cyclic = node "a" ("c" ∷ []) ∷ node "b" ("a" ∷ []) ∷ node "c" ("b" ∷ []) ∷ []

diamond_accepted : validate_node_dag diamond (ids diamond) ≡ ok tt
unfolding validate_node_dag drain release sources
diamond_accepted = refl

cyclic_refused : validate_node_dag cyclic (ids cyclic) ≡ err value_error
unfolding validate_node_dag drain release sources
cyclic_refused = refl

self_parent_refused : validate_node_dag (node "a" ("a" ∷ []) ∷ []) ("a" ∷ []) ≡ err value_error
unfolding validate_node_dag drain release sources
self_parent_refused = refl

unknown_parent_refused : validate_node_dag (node "a" ("z" ∷ []) ∷ []) ("a" ∷ []) ≡ err value_error
unfolding validate_node_dag drain release sources
unknown_parent_refused = refl

diamond_order : topological_order diamond ≡ some ("a" ∷ "b" ∷ "c" ∷ "d" ∷ [])
unfolding topological_order drain sources
diamond_order = refl

diamond-Distinct : Distinct (ids diamond)
diamond-Distinct = distinct-Distinct (ids diamond) refl

diamond-DistinctParents : DistinctParents diamond
diamond-DistinctParents = (
  distinct-Distinct ("b" ∷ "c" ∷ []) refl,
  (
    distinct-Distinct [] refl,
    (distinct-Distinct ("a" ∷ []) refl, (distinct-Distinct ("a" ∷ []) refl, tt)),
  ),
)

validate_node_dag_iff_example :
    (validate_node_dag diamond (ids diamond) ≡ ok tt)
    ↔ ((order : List String) × IsTopological diamond order)
validate_node_dag_iff_example = validate_node_dag_iff diamond diamond-Distinct

topological_order_sorts_example :
    (result : List String) × (topological_order diamond ≡ some result)
    × IsTopological diamond result
topological_order_sorts_example =
    topological_order_sorts diamond diamond-Distinct diamond-DistinctParents
      (validate_node_dag_iff_example.0 diamond_accepted).0
      (validate_node_dag_iff_example.0 diamond_accepted).1
