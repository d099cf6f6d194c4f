-- ===== src/Plan/Dag/Topological.antt =====
-- operator_mission_plan.py: _topological_order, the order that hermes_plan_review reports.
use hermes_gpt.Prelude.{
  ◌+◌, ◌-◌, String, ◌≡◌, refl, Option, some, List, [], ◌∷◌, ◌++◌, arith, ◌==◌, eq_iff,
  if◌then◌else◌, Bool-cases, inl, inr, eqb, length,
}
use hermes_gpt.Prelude.Names.{count, contains, Distinct}
use hermes_gpt.Plan.Node.{Node}
use hermes_gpt.Plan.Dag.{Counts, put, ids, release, drain, sources}
use hermes_gpt.Plan.Dag.Arcs.{arcs, into, children, pending, pending-append, children-append}
use hermes_gpt.Plan.Dag.Kahn.{Ends, drain-Ends, complete_counts, complete_of_Sorted}
use hermes_gpt.Plan.Dag.Build.{length-ids, Graph-arcs, Inv-start}
use hermes_gpt.Plan.Dag.Order.{IsTopological, Sorted-ParentsFirst, ParentsFirst-Sorted}

-- `indegree[node_id] += 1` once for each parent.
count_parents : List Node → Counts → Counts
count_parents [] d = d
count_parents (n ∷ ns) d = count_parents ns (put d n.node_id (d n.node_id + length n.parents))

-- `for n in nodes: if cur in parents: ...`
visit_nodes : List Node → String → Counts → List String → Counts × List String
visit_nodes [] cur d q = (d, q)
visit_nodes (n ∷ ns) cur d q =
    let hit = contains n.parents cur in
    visit_nodes ns cur (if hit then put d n.node_id (d n.node_id - 1) else d)
      (if hit then (if eqb (d n.node_id) 1 then q ++ n.node_id ∷ [] else q) else q)

-- _topological_order(nodes); `none` means that the fuel ran out.
unfoldable pub topological_order : List Node → Option (List String)
unfolding count_parents visit_nodes
topological_order ns =
    let indegree = count_parents ns (λ _. 0) in
    drain (visit_nodes ns) (length ns) indegree (sources ns indegree) []

-- The nodes that have `cur` among their parents.
children_of : List Node → String → List String
children_of [] cur = []
children_of (n ∷ ns) cur =
    let rest = children_of ns cur in if contains n.parents cur then n.node_id ∷ rest else rest

visit_nodes-release :
    (ns : List Node) (cur : String) (d : Counts) (q : List String)
    → visit_nodes ns cur d q ≡ release (children_of ns cur) d q
unfolding visit_nodes children_of release
visit_nodes-release [] cur d q = refl
visit_nodes-release (n ∷ ns) cur d q = elim (Bool-cases (contains n.parents cur)) [
  | inl hit ↦ rw hit (visit_nodes-release ns cur _ _)
  | inr miss ↦ rw miss (visit_nodes-release ns cur _ _)
]

-- No node names a parent twice.
abbrev pub DistinctParents : List Node → Type 0
DistinctParents [] = Unit
DistinctParents (n ∷ ns) = Distinct n.parents × DistinctParents ns

into-children :
    (id cur x : String) (ps : List String)
    → count x (children cur (into id ps)) ≡ (if id == x then count cur ps else 0)
into-children id cur x [] = ground arith
into-children id cur x (p ∷ ps) = ground (arith, into-children id cur x ps)

children_of-arcs :
    (ns : List Node) (cur x : String)
    → DistinctParents ns
    → count x (children_of ns cur) ≡ count x (children cur (arcs ns))
unfolding children_of
children_of-arcs [] cur x h = refl
children_of-arcs (n ∷ ns) cur x h = ground (
  arith,
  h.0 cur,
  children-append cur (into n.node_id n.parents) (arcs ns) x,
  into-children n.node_id cur x n.parents,
  children_of-arcs ns cur x h.1,
)

into-pending :
    (id c : String) (ps : List String)
    → pending [] (into id ps) c ≡ (if id == c then length ps else 0)
into-pending id c [] = ground arith
into-pending id c (p ∷ ps) = ground (arith, into-pending id c ps)

count_parents-pending :
    (ns : List Node) (d : Counts) (c : String) → count_parents ns d c ≡ d c + pending [] (arcs ns) c
unfolding count_parents
count_parents-pending [] d c = omega arith
count_parents-pending (n ∷ ns) d c = ground (
  arith,
  eq_iff n.node_id c,
  into-pending n.node_id c n.parents,
  pending-append [] (into n.node_id n.parents) (arcs ns) c,
  count_parents-pending ns (put d n.node_id (d n.node_id + length n.parents)) c,
)

module _ (ns : List Node) (distinct : Distinct (ids ns)) (once : DistinctParents ns) where
  review_ends : Ends (children_of ns) (arcs ns) (ids ns) (topological_order ns)
  unfolding topological_order
  review_ends =
      drain-Ends (children_of ns) (arcs ns) (ids ns)
        (Graph-arcs ns distinct (children_of ns) (λ cur x. children_of-arcs ns cur x once))
        (visit_nodes ns) (visit_nodes-release ns) (length ns) (count_parents ns (λ _. 0))
        (sources ns (count_parents ns (λ _. 0))) []
        (Inv-start ns distinct (children_of ns) (count_parents ns (λ _. 0))
          (λ c. omega (arith, count_parents-pending ns (λ _. 0) c)))
        (omega (arith, length-ids ns))

  -- For a plan with distinct ids, no parent named twice, and some topological order,
  -- _topological_order ends and returns a topological order.
  pub topological_order_sorts :
      (order : List String)
      → IsTopological ns order
      → (result : List String) × (topological_order ns ≡ some result) × IsTopological ns result
  topological_order_sorts order t =
      let full =
        complete_of_Sorted (children_of ns) (arcs ns) (ids ns) review_ends.inv order t.lists
          (ParentsFirst-Sorted ns [] order t.parents_first) in
      (
        review_ends.order,
        review_ends.returned,
        record {
          lists = complete_counts (children_of ns) (arcs ns) (ids ns) review_ends.inv full;
          parents_first = Sorted-ParentsFirst ns [] review_ends.order review_ends.inv.sorted;
        },
      )
