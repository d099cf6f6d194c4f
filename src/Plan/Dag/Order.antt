-- ===== src/Plan/Dag/Order.antt =====
-- What _validate_node_dag accepts: exactly the plans that have a topological order.
use mathlib.Core.Path.{subst}
use mathlib.Core.List.{append_assoc}
use hermes_gpt.Prelude.{
  ◌≤◌, ◌<◌, String, ◌≡◌, ◌↔◌, refl, sym, ◌∙◌, true, false, not, List, [], ◌∷◌, ◌++◌, arith, ◌==◌,
  eq_iff, Bool-cases, inl, inr, eqb, length, any,
}
use hermes_gpt.Prelude.Names.{count, contains, Distinct, count-append}
use hermes_gpt.Prelude.Result.{ok, err, value_error, require}
use hermes_gpt.Plan.Node.{Node}
use hermes_gpt.Plan.Dag.{
  ids, parents_known, release, drain, sources, add_nodes, sort_and_check, check_complete,
  validate_node_dag,
}
use hermes_gpt.Plan.Dag.Arcs.{arcs, ParentsIn, pending-ParentsIn, ParentsIn-pending}
use hermes_gpt.Plan.Dag.Kahn.{Ends, Sorted, drain-Ends, complete_counts, complete_of_Sorted}
use hermes_gpt.Plan.Dag.Build.{
  self_parent, grown_edges, grown_counts, add_nodes-grown, grown_edges-count, grown_counts-pending,
  length-ids, Graph-arcs, Inv-start,
}

-- Every name of the list has its parents in `seen` or earlier in the list.
abbrev pub ParentsFirst : List Node → List String → List String → Type 0
ParentsFirst ns seen [] = Unit
ParentsFirst ns seen (c ∷ cs) = ParentsIn ns seen c × ParentsFirst ns (seen ++ c ∷ []) cs

-- The order lists each node's name once for each node of that name, parents first.
pub record IsTopological (ns : List Node) (order : List String) : Type 0 where
  pub lists : (x : String) → count x order ≡ count x (ids ns)
  pub parents_first : ParentsFirst ns [] order

pub Sorted-ParentsFirst :
    (ns : List Node) (seen order : List String)
    → Sorted (arcs ns) seen order
    → ParentsFirst ns seen order
Sorted-ParentsFirst ns seen [] s = tt
Sorted-ParentsFirst ns seen (c ∷ cs) s =
    (pending-ParentsIn ns seen c s.0, Sorted-ParentsFirst ns (seen ++ c ∷ []) cs s.1)

pub ParentsFirst-Sorted :
    (ns : List Node) (seen order : List String)
    → ParentsFirst ns seen order
    → Sorted (arcs ns) seen order
ParentsFirst-Sorted ns seen [] s = tt
ParentsFirst-Sorted ns seen (c ∷ cs) s =
    (ParentsIn-pending ns seen c s.0, ParentsFirst-Sorted ns (seen ++ c ∷ []) cs s.1)

-- The names before the first occurrence of `x` hold its parents.
record Before (ns : List Node) (whole : List String) (x : String) : Type 0 where
  names : List String
  parents_in : ParentsIn ns names x
  within : (y : String) → count y names ≤ count y whole
  strict : count x names < count x whole

before :
    (ns : List Node) (seen order : List String) (x : String)
    → ParentsFirst ns seen order
    → 0 < count x order
    → Before ns (seen ++ order) x
before ns seen [] x s k = absurd (omega arith)
before ns seen (c ∷ cs) x s k = elim (Bool-cases (c == x)) [
  | inl same ↦ record {
    names = seen;
    parents_in = subst (ParentsIn ns seen) ((eq_iff c x).0 same) s.0;
    within = λ y. omega (arith, count-append y seen (c ∷ cs));
    strict = ground (arith, same, count-append x seen (c ∷ cs));
  }
  | inr other ↦
      let b = before ns (seen ++ c ∷ []) cs x s.1 (ground (arith, other)) in
      subst (λ l. Before ns l x) (append_assoc seen (c ∷ []) cs) b
]

-- Each parent of a node is a node of the plan, and another one.
abbrev ParentsFine : List Node → Node → Type 0
ParentsFine ns n =
    (p : String) → 0 < count p n.parents → (0 < count p (ids ns)) × (count n.node_id (p ∷ []) ≡ 0)

abbrev AllFine : List Node → List Node → Type 0
AllFine ns [] = Unit
AllFine ns (n ∷ ms) = ParentsFine ns n × AllFine ns ms

any_unknown :
    (uuid ps : List String)
    → ((p : String) → 0 < count p ps → 0 < count p uuid)
    → any (λ p. not (contains uuid p)) ps ≡ false
any_unknown uuid [] h = refl
any_unknown uuid (p ∷ ps) h =
    let here = h p (ground (arith, eq_iff p p)) in
    ground (arith, here, any_unknown uuid ps (λ x k. h x (omega arith)))

fine_known : (ns ms : List Node) → AllFine ns ms → parents_known (ids ns) ms ≡ true
unfolding parents_known
fine_known ns [] f = refl
fine_known ns (n ∷ ms) f =
    ground (arith, any_unknown (ids ns) n.parents (λ p k. (f.0 p k).0), fine_known ns ms f.1)

not_own :
    (x : String) (ps : List String)
    → ((p : String) → 0 < count p ps → count x (p ∷ []) ≡ 0)
    → count x ps ≡ 0
not_own x [] h = refl
not_own x (p ∷ ps) h =
    let here = h p (ground (arith, eq_iff p p)) in
    omega (arith, here, not_own x ps (λ q k. h q (omega arith)))

fine_no_self : (ns ms : List Node) → AllFine ns ms → self_parent ms ≡ false
fine_no_self ns [] f = refl
fine_no_self ns (n ∷ ms) f =
    ground (arith, not_own n.node_id n.parents (λ p k. (f.0 p k).1), fine_no_self ns ms f.1)

module _ (ns : List Node) (distinct : Distinct (ids ns)) where
  node_fine :
      (order : List String)
      → IsTopological ns order
      → (n : Node) → 0 < count n.node_id (ids ns)
      → ((pre : List String)
          → ParentsIn ns pre n.node_id
          → (p : String) → 0 < count p n.parents
          → 0 < count p pre)
      → ParentsFine ns n
  node_fine order t n known at p k =
      let b = before ns [] order n.node_id t.parents_first (omega (arith, t.lists n.node_id)) in
      let inside = at b.names b.parents_in p k in
      (
        omega (arith, b.within p, t.lists p),
        ground (arith, eq_iff p n.node_id, b.strict, t.lists n.node_id, distinct n.node_id, inside),
      )

  all_fine :
      (order : List String)
      → IsTopological ns order
      → (ms : List Node)
      → ((pre : List String) (c : String) → ParentsIn ns pre c → ParentsIn ms pre c)
      → ((x : String) → count x (ids ms) ≤ count x (ids ns))
      → AllFine ns ms
  all_fine order t [] sub le = tt
  all_fine order t (n ∷ ms) sub le = (
    node_fine order t n (ground (arith, le n.node_id, eq_iff n.node_id n.node_id))
        (λ pre h. (sub pre n.node_id h).0 refl),
    all_fine order t ms (λ pre c h. (sub pre c h).1) (λ x. omega (arith, le x)),
  )

  -- The queue loop as _validate_node_dag runs it, when it is reached.
  loop_ends : Ends (grown_edges ns (λ _. [])) (arcs ns) (ids ns) (
      drain
        (λ cur. release (grown_edges ns (λ _. []) cur))
        (length ns)
        (grown_counts ns (λ _. 0))
        (sources ns (grown_counts ns (λ _. 0)))
        [])
  loop_ends =
      drain-Ends _ (arcs ns) (ids ns)
        (Graph-arcs ns distinct (grown_edges ns (λ _. []))
          (λ cur x. omega (arith, grown_edges-count ns (λ _. []) cur x)))
        _ (λ cur d q. refl) (length ns) (grown_counts ns (λ _. 0))
        (sources ns (grown_counts ns (λ _. 0))) []
        (Inv-start ns distinct _ (grown_counts ns (λ _. 0))
          (λ c. omega (arith, grown_counts-pending ns (λ _. 0) c)))
        (omega (arith, length-ids ns))

  -- What is left of the validation once the parents are known and no node is its own.
  validate_fine :
      parents_known (ids ns) ns ≡ true
      → self_parent ns ≡ false
      → validate_node_dag ns (ids ns)
        ≡ require (eqb (length loop_ends.order) (length ns)) value_error
  unfolding validate_node_dag
  validate_fine known fine = rw known (
      rw (add_nodes-grown ns (λ _. []) (λ _. 0), sort_and_check)
        (rw (fine, sort_and_check) (rw (loop_ends.returned, check_complete) refl)))

  -- An accepted plan has passed both tests that come before the queue loop.
  accepted_known : validate_node_dag ns (ids ns) ≡ ok tt → parents_known (ids ns) ns ≡ true
  unfolding validate_node_dag
  accepted_known h = elim (Bool-cases (parents_known (ids ns) ns)) [
    | inl known ↦ known
    | inr unknown ↦ cc (rw unknown at h)
  ]

  accepted_fine :
      validate_node_dag ns (ids ns) ≡ ok tt
      → parents_known (ids ns) ns ≡ true
      → self_parent ns ≡ false
  unfolding validate_node_dag
  accepted_fine h known = elim (Bool-cases (self_parent ns)) [
    | inl self ↦
        let refused : sort_and_check ns (add_nodes ns (λ _. []) (λ _. 0)) ≡ err value_error =
          rw (add_nodes-grown ns (λ _. []) (λ _. 0), sort_and_check)
            (rw (self, sort_and_check) refl) in
        cc (sym refused ∙ (rw known at h))
    | inr fine ↦ fine
  ]

  order_of_accepted :
      validate_node_dag ns (ids ns) ≡ ok tt → (order : List String) × IsTopological ns order
  order_of_accepted h =
      let known = accepted_known h in
      let complete : require (eqb (length loop_ends.order) (length ns)) value_error ≡ ok tt =
        sym (validate_fine known (accepted_fine h known)) ∙ h in
      let all_of_them : length loop_ends.order ≡ length (ids ns) =
        ground (arith, complete, length-ids ns) in
      (
        loop_ends.order,
        record {
          lists = complete_counts _ (arcs ns) (ids ns) loop_ends.inv all_of_them;
          parents_first = Sorted-ParentsFirst ns [] loop_ends.order loop_ends.inv.sorted;
        },
      )

  all_listed : (order : List String) → IsTopological ns order → length loop_ends.order ≡ length ns
  all_listed order t =
      complete_of_Sorted _ (arcs ns) (ids ns) loop_ends.inv order t.lists
        (ParentsFirst-Sorted ns [] order t.parents_first)
      ∙ length-ids ns

  accepted_of_order :
      (order : List String) → IsTopological ns order → validate_node_dag ns (ids ns) ≡ ok tt
  accepted_of_order order t =
      let fine = all_fine order t ns (λ pre c h. h) (λ x. omega arith) in
      validate_fine (fine_known ns ns fine) (fine_no_self ns ns fine)
      ∙ ground (arith, all_listed order t)

  -- For a plan whose node ids are distinct, _validate_node_dag against those ids accepts exactly
  -- when the nodes can be listed, each once, with the parents of each before it.
  pub validate_node_dag_iff :
      (validate_node_dag ns (ids ns) ≡ ok tt) ↔ ((order : List String) × IsTopological ns order)
  validate_node_dag_iff = (order_of_accepted, λ t. accepted_of_order t.0 t.1)
