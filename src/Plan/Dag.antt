-- ===== src/Plan/Dag.antt =====
-- operator_mission_plan.py: _validate_node_dag and _topological_order (Kahn's algorithm).
-- The dictionaries `indegree` and `edges` are functions: every key that is read was entered at the
-- start, since the unknown parents have been refused. An indegree that the source counts below 0
-- stays 0 here; the test is made against the value before the step, so both queue the same nodes.

pub mod Arcs
mod Kahn
mod Build
pub mod Order
pub mod Topological
use hermes_gpt.Prelude.{
  ℕ, zero, suc, ◌+◌, ◌-◌, String, Bool, true, false, not, ◌&&◌, ◌||◌, Option, none, some, List, [],
  ◌∷◌, ◌++◌, map, ◌==◌, any, length, eqb, if◌then◌else◌,
}
use hermes_gpt.Prelude.Names.{contains, filter}
use hermes_gpt.Prelude.Result.{Result, ok, err, value_error, ◌>>◌, require}
use hermes_gpt.Plan.Node.{Node}

abbrev pub Counts : Type 0
Counts = String → ℕ

abbrev pub Edges : Type 0
Edges = String → List String

-- d[k] = v
abbrev pub put {ℓ} : {V : Type ℓ} → (String → V) → String → V → String → V
put d k v j = if k == j then v else d j

abbrev pub ids : List Node → List String
ids = map (λ n. n.node_id)

-- The first loop: every parent is known.
unfoldable pub parents_known : List String → List Node → Bool
parents_known uuid [] = true
parents_known uuid (n ∷ ns) =
    not (any (λ p. not (contains uuid p)) n.parents) && parents_known uuid ns

-- `edges[parent].append(node_id); indegree[node_id] += 1` for each parent; a node that is its own
-- parent is refused.
add_parents : String → List String → Edges → Counts → Option (Edges × Counts)
add_parents id [] edges indegree = some (edges, indegree)
add_parents id (p ∷ ps) edges indegree =
    let rest =
      add_parents id ps (put edges p (edges p ++ id ∷ [])) (put indegree id (indegree id + 1)) in
    if p == id then none else rest

pub add_nodes : List Node → Edges → Counts → Option (Edges × Counts)
unfolding add_parents
add_nodes [] edges indegree = some (edges, indegree)
add_nodes (n ∷ ns) edges indegree = elim (add_parents n.node_id n.parents edges indegree) [
  | none ↦ none
  | some (edges', indegree') ↦ add_nodes ns edges' indegree'
]

-- `for nxt in edges[cur]: indegree[nxt] -= 1; if indegree[nxt] == 0: queue.append(nxt)`
unfoldable pub release : List String → Counts → List String → Counts × List String
release [] indegree queue = (indegree, queue)
release (nxt ∷ rest) indegree queue =
    release rest (put indegree nxt (indegree nxt - 1))
      (if eqb (indegree nxt) 1 then queue ++ nxt ∷ [] else queue)

-- `while queue`, on fuel: `none` means that the fuel ran out.
unfoldable pub drain :
    (String → Counts → List String → Counts × List String)
    → ℕ
    → Counts
    → List String
    → List String
    → Option (List String)
drain visit zero indegree [] ordered = some ordered
drain visit zero indegree (cur ∷ queue) ordered = none
drain visit (suc fuel) indegree [] ordered = some ordered
drain visit (suc fuel) indegree (cur ∷ queue) ordered =
    let (indegree', queue') = visit cur indegree queue in
    drain visit fuel indegree' queue' (ordered ++ cur ∷ [])

-- The nodes with no parent, in the order of the plan.
unfoldable pub sources : List Node → Counts → List String
sources ns indegree = filter (λ id. eqb (indegree id) 0) (ids ns)

check_complete : List Node → Option (List String) → Result (Unit {0})
check_complete ns none = err value_error
check_complete ns (some ordered) = require (eqb (length ordered) (length ns)) value_error

sort_and_check : List Node → Option (Edges × Counts) → Result (Unit {0})
unfolding check_complete
sort_and_check ns none = err value_error
sort_and_check ns (some (edges, indegree)) =
    check_complete ns
      (drain (λ cur. release (edges cur)) (length ns) indegree (sources ns indegree) [])

-- _validate_node_dag(nodes, uuid=uuid)
unfoldable pub validate_node_dag : List Node → List String → Result (Unit {0})
unfolding parents_known add_nodes sort_and_check
validate_node_dag ns uuid =
    if parents_known uuid ns
    then sort_and_check ns (add_nodes ns (λ _. []) (λ _. 0))
    else err value_error
