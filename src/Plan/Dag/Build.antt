-- ===== src/Plan/Dag/Build.antt =====
-- The dictionaries that the building loop leaves, and the state in which the queue loop begins.
use hermes_gpt.Prelude.{
  ◌+◌, String, ◌≡◌, refl, Bool, true, false, none, some, List, [], ◌∷◌, ◌++◌, arith, ◌==◌, eq_iff,
  if◌then◌else◌, Bool-cases, inl, inr, ◌||◌, ◌⊎◌, eqb, length,
}
use hermes_gpt.Prelude.Names.{count, contains, one_if, count-append, Distinct, count-filter}
use hermes_gpt.Plan.Node.{Node}
use hermes_gpt.Plan.Dag.{Counts, Edges, put, ids, add_parents, add_nodes, sources}
use hermes_gpt.Plan.Dag.Arcs.{
  into, arcs, children, pending, pending-append, children-append, children_known,
}
use hermes_gpt.Plan.Dag.Kahn.{Inv, Graph}

-- The dictionaries after one node, when it is not its own parent.
grow_edges : String → List String → Edges → Edges
grow_edges id [] e = e
grow_edges id (p ∷ ps) e = grow_edges id ps (put e p (e p ++ id ∷ []))

grow_counts : String → List String → Counts → Counts
grow_counts id [] d = d
grow_counts id (p ∷ ps) d = grow_counts id ps (put d id (d id + 1))

add_parents-grow :
    (id : String) (ps : List String) (e : Edges) (d : Counts)
    → add_parents id ps e d
      ≡ (if contains ps id then none else some (grow_edges id ps e, grow_counts id ps d))
unfolding add_parents grow_edges grow_counts
add_parents-grow id [] e d = refl
add_parents-grow id (p ∷ ps) e d =
    ground
      (arith, eq_iff p id, add_parents-grow id ps (put e p (e p ++ id ∷ [])) (put d id (d id + 1)))

-- `edges[parent].append(node_id)`
put-count :
    (e : Edges) (p id cur x : String)
    → (p == cur ≡ true) ⊎ (p == cur ≡ false)
    → count x (put e p (e p ++ id ∷ []) cur)
      ≡ count x (e cur) + (if p == cur then one_if (id == x) else 0)
put-count e p id cur x (inl same) =
    rw same (rw ((eq_iff p cur).0 same) (omega (arith, count-append x (e cur) (id ∷ []))))
put-count e p id cur x (inr other) = rw other (omega arith)

grow_edges-count :
    (id : String) (ps : List String) (e : Edges) (cur x : String)
    → count x (grow_edges id ps e cur) ≡ count x (e cur) + count x (children cur (into id ps))
unfolding grow_edges
grow_edges-count id [] e cur x = omega arith
grow_edges-count id (p ∷ ps) e cur x = ground (
  arith,
  grow_edges-count id ps (put e p (e p ++ id ∷ [])) cur x,
  put-count e p id cur x (Bool-cases (p == cur)),
)

grow_counts-pending :
    (id : String) (ps : List String) (d : Counts) (c : String)
    → grow_counts id ps d c ≡ d c + pending [] (into id ps) c
unfolding grow_counts
grow_counts-pending id [] d c = omega arith
grow_counts-pending id (p ∷ ps) d c =
    ground (arith, eq_iff id c, grow_counts-pending id ps (put d id (d id + 1)) c)

-- Whether some node is its own parent.
abbrev pub self_parent : List Node → Bool
self_parent [] = false
self_parent (n ∷ ns) = contains n.parents n.node_id || self_parent ns

pub grown_edges : List Node → Edges → Edges
grown_edges [] e = e
grown_edges (n ∷ ns) e = grown_edges ns (grow_edges n.node_id n.parents e)

pub grown_counts : List Node → Counts → Counts
grown_counts [] d = d
grown_counts (n ∷ ns) d = grown_counts ns (grow_counts n.node_id n.parents d)

pub add_nodes-grown :
    (ns : List Node) (e : Edges) (d : Counts)
    → add_nodes ns e d
      ≡ (if self_parent ns then none else some (grown_edges ns e, grown_counts ns d))
unfolding add_nodes grown_edges grown_counts
add_nodes-grown [] e d = refl
add_nodes-grown (n ∷ ns) e d = elim (Bool-cases (contains n.parents n.node_id)) [
  | inl self ↦ rw (add_parents-grow n.node_id n.parents e d, add_nodes) (rw (self, add_nodes) refl)
  | inr fine ↦
      rw (add_parents-grow n.node_id n.parents e d, add_nodes)
        (rw (fine, add_nodes) (add_nodes-grown ns _ _))
]

pub grown_edges-count :
    (ns : List Node) (e : Edges) (cur x : String)
    → count x (grown_edges ns e cur) ≡ count x (e cur) + count x (children cur (arcs ns))
unfolding grown_edges
grown_edges-count [] e cur x = omega arith
grown_edges-count (n ∷ ns) e cur x = omega (
  arith,
  grown_edges-count ns (grow_edges n.node_id n.parents e) cur x,
  grow_edges-count n.node_id n.parents e cur x,
  children-append cur (into n.node_id n.parents) (arcs ns) x,
)

pub grown_counts-pending :
    (ns : List Node) (d : Counts) (c : String) → grown_counts ns d c ≡ d c + pending [] (arcs ns) c
unfolding grown_counts
grown_counts-pending [] d c = omega arith
grown_counts-pending (n ∷ ns) d c = omega (
  arith,
  grown_counts-pending ns (grow_counts n.node_id n.parents d) c,
  grow_counts-pending n.node_id n.parents d c,
  pending-append [] (into n.node_id n.parents) (arcs ns) c,
)

-- The nodes' names are as many as the nodes.
pub length-ids : (ns : List Node) → length (ids ns) ≡ length ns
length-ids [] = refl
length-ids (n ∷ ns) = omega (arith, length-ids ns)

module _ (ns : List Node) (distinct : Distinct (ids ns)) where
  -- Any listing of the children that agrees with the arcs makes the graph that the loop runs on.
  pub Graph-arcs :
      (edges : Edges)
      → ((cur x : String) → count x (edges cur) ≡ count x (children cur (arcs ns)))
      → Graph edges (arcs ns) (ids ns)
  Graph-arcs edges listed = record {
    listed = listed;
    known = children_known ns;
    distinct = distinct;
  }

  -- The queue loop begins with nothing listed and the sources queued.
  pub Inv-start :
      (edges : Edges) (d : Counts)
      → ((c : String) → d c ≡ pending [] (arcs ns) c)
      → Inv edges (arcs ns) (ids ns) d (sources ns d) []
  unfolding sources
  Inv-start edges d degree = record {
    degree = degree;
    queued = λ x. count-filter x (λ id. eqb (d id) 0) (ids ns);
    sorted = tt;
  }
