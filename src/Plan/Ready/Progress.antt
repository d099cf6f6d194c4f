-- ===== src/Plan/Ready/Progress.antt =====
-- An acyclic plan whose work can go on has a node ready to be dispatched.
use mathlib.Core.Path.{subst, sym}
use hermes_gpt.Prelude.{
  String, ◌≡◌, ◌≢◌, ◌⊎◌, refl, true, false, some, List, [], ◌∷◌, ◌++◌, map, arith, all, eq_iff,
  ◌==◌, ◌<◌, Bool-cases, Option-cases, inl, inr,
}
use hermes_gpt.Prelude.Names.{count, count-append}
use hermes_gpt.Plan.State.{pending, completed}
use hermes_gpt.Plan.Node.{Node}
use hermes_gpt.Plan.Store.{ViewNode, by_id}
use hermes_gpt.Plan.Dag.{ids}
use hermes_gpt.Plan.Dag.Arcs.{ParentsIn}
use hermes_gpt.Plan.Dag.Order.{IsTopological, ParentsFirst}
use hermes_gpt.Plan.Ready.{is_ready, parent_completed, ready_among, ready_node_ids}

abbrev pub definitions : List ViewNode → List Node
definitions = map (λ n. n.definition)

-- A node of the view that is found by its id bears that id.
by_id_named : (ns : List ViewNode) (x : String) (m : ViewNode) → by_id ns x ≡ some m → m.node_id ≡ x
unfolding by_id
by_id_named [] x m h = cc
by_id_named (n ∷ ns) x m h = ground (arith, eq_iff n.node_id x, by_id_named ns x m)

by_id_known :
    (ns : List ViewNode) (x : String)
    → 0 < count x (ids (definitions ns))
    → (m : ViewNode) × (by_id ns x ≡ some m)
unfolding by_id
by_id_known [] x h = absurd (omega arith)
by_id_known (n ∷ ns) x h = elim (Option-cases (by_id ns x)) [
  | inl missing ↦ (n, ground (arith, by_id_known ns x, missing))
  | inr (m, found) ↦ (m, rw found)
]

-- The parents of a found node are among those that its name requires.
parents_of_found :
    (ns : List ViewNode) (seen : List String) (x : String) (m : ViewNode)
    → by_id ns x ≡ some m
    → ParentsIn (definitions ns) seen x
    → (p : String) → 0 < count p m.parents
    → 0 < count p seen
unfolding by_id
parents_of_found [] seen x m h at p k = cc
parents_of_found (n ∷ ns) seen x m h at p k = elim (Option-cases (by_id ns x)) [
  | inl missing ↦
      let same : n ≡ m = ground (arith, missing) in
      at.0 (ground (arith, missing, eq_iff n.node_id x)) p
        (subst (λ (y : ViewNode). 0 < count p y.parents) (sym same) k)
  | inr (m', found) ↦ parents_of_found ns seen x m (ground (arith, found)) at.1 p k
]

all_completed :
    (ns : List ViewNode) (ps : List String)
    → ((p : String) → 0 < count p ps → parent_completed ns p ≡ true)
    → all (parent_completed ns) ps ≡ true
all_completed ns [] h = refl
all_completed ns (p ∷ ps) h =
    rw (h p (ground (arith, eq_iff p p))) (all_completed ns ps (λ q k. h q (omega arith)))

found_ready :
    (ns ms : List ViewNode) (x : String) (m : ViewNode)
    → by_id ms x ≡ some m
    → is_ready ns m ≡ true
    → ready_among ns ms ≢ []
unfolding by_id ready_among
found_ready ns [] x m h r = cc
found_ready ns (n ∷ ms) x m h r = elim (Option-cases (by_id ms x)) [
  | inl missing ↦
      let same : n ≡ m = ground (arith, missing) in
      let here : is_ready ns n ≡ true = rw same r in ground (arith, here)
  | inr (m', found) ↦
      let later = found_ready ns ms x m (ground (arith, found)) r in ground (arith, later)
]

-- Every name seen so far that is looked up is completed.
abbrev SeenCompleted : List ViewNode → List String → Type 0
SeenCompleted ns seen = (p : String) → 0 < count p seen → parent_completed ns p ≡ true

completed_parent :
    (ns : List ViewNode) (x : String) (m : ViewNode)
    → by_id ns x ≡ some m
    → m.state ≡ completed
    → parent_completed ns x ≡ true
unfolding parent_completed
completed_parent ns x m found q = ground arith

pending_not_completed :
    (ns : List ViewNode) (x : String) (m : ViewNode)
    → by_id ns x ≡ some m
    → m.state ≡ pending
    → ¬ (parent_completed ns x ≡ true)
unfolding parent_completed
pending_not_completed ns x m found q h = ground arith

by_id_listed :
    (ns : List ViewNode) (x : String) (m : ViewNode)
    → by_id ns x ≡ some m
    → 0 < count x (ids (definitions ns))
unfolding by_id
by_id_listed [] x m h = cc
by_id_listed (n ∷ ns) x m h = elim (Option-cases (by_id ns x)) [
  | inl missing ↦ ground (arith, missing)
  | inr (m', found) ↦ omega (arith, by_id_listed ns x m' found)
]

on_or_before :
    (ns : List ViewNode) (c x : String)
    → (c == x ≡ false → parent_completed ns x ≡ true)
    → parent_completed ns c ≡ true
    → (c == x ≡ true) ⊎ (c == x ≡ false)
    → parent_completed ns x ≡ true
on_or_before ns c x before here (inl same) =
    subst (λ y. parent_completed ns y ≡ true) ((eq_iff c x).0 same) here
on_or_before ns c x before here (inr other) = before other

module _ (ns : List ViewNode) where
  -- No node is in any other state than these two.
  abbrev pub Undisturbed : Type 0
  Undisturbed =
      (x : String) (m : ViewNode)
      → by_id ns x ≡ some m
      → (m.state ≡ pending) ⊎ (m.state ≡ completed)

  ready_if :
      (seen : List String) (x : String) (m : ViewNode)
      → by_id ns x ≡ some m
      → m.state ≡ pending
      → ParentsIn (definitions ns) seen x
      → SeenCompleted ns seen
      → is_ready ns m ≡ true
  unfolding is_ready
  ready_if seen x m found p at done =
      let parents =
        all_completed ns m.parents (λ q k. done q (parents_of_found ns seen x m found at q k)) in
      ground (arith, parents)

  search_order :
      (seen order : List String)
      → Undisturbed
      → ((x : String) → 0 < count x order → 0 < count x (ids (definitions ns)))
      → ParentsFirst (definitions ns) seen order
      → SeenCompleted ns seen
      → (ready_node_ids ns ≢ []) ⊎ ((x : String) → 0 < count x order → parent_completed ns x ≡ true)
  search_order seen [] u known s done = inr (λ x k. absurd (omega arith))
  search_order seen (c ∷ cs) u known s done =
      let (m, found) = by_id_known ns c (known c (ground (arith, eq_iff c c))) in
      elim (u c m found) [
        | inl p ↦ inl (
            unfold ready_node_ids in
            found_ready ns ns c m found (ready_if seen c m found p s.0 done))
        | inr q ↦
            let here = completed_parent ns c m found q in
            elim (search_order (seen ++ c ∷ []) cs u (λ x k. known x (omega arith)) s.1
              (λ x k.
                on_or_before ns c x
                  (λ k'. done x (ground (arith, k', eq_iff c x, count-append x seen (c ∷ [])))) here
                  (Bool-cases (c == x)))) [
                    | inl ready ↦ inl ready
                    | inr rest ↦ inr (λ x k.
                        on_or_before ns c x (λ k'. rest x (ground (arith, k'))) here
                          (Bool-cases (c == x)))
                  ]
      ]

  -- In a plan that has a topological order and whose nodes are all pending or completed, some node
  -- is ready as long as one is pending.
  pub ready_progress :
      (order : List String)
      → IsTopological (definitions ns) order
      → Undisturbed
      → (x : String) (m : ViewNode) → by_id ns x ≡ some m
      → m.state ≡ pending
      → ready_node_ids ns ≢ []
  ready_progress order t u x m found p =
      elim (search_order [] order u (λ y k. omega (arith, t.lists y)) t.parents_first
        (λ y k. absurd (omega arith))) [
          | inl ready ↦ ready
          | inr done ↦
              let listed = by_id_listed ns x m found in
              absurd
                (pending_not_completed ns x m found p (done x (omega (arith, listed, t.lists x))))
        ]
