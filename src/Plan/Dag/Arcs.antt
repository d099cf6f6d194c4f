-- ===== src/Plan/Dag/Arcs.antt =====
-- The arcs of a plan, parent to node, as the lists that the algorithm counts over.
use hermes_gpt.Prelude.{
  ℕ, ◌+◌, ◌<◌, String, ◌≡◌, refl, not, List, [], ◌∷◌, ◌++◌, arith, ◌==◌, eq_iff, if◌then◌else◌,
  Bool-cases, inl, inr,
}
use hermes_gpt.Prelude.Names.{count, contains, one_if, count-append}
use hermes_gpt.Plan.Node.{Node}
use hermes_gpt.Plan.Dag.{ids}

abbrev pub Arcs : Type 0
Arcs = List (String × String)

-- The arcs into one node.
abbrev pub into : String → List String → Arcs
into id [] = []
into id (p ∷ ps) = (p, id) ∷ into id ps

abbrev pub arcs : List Node → Arcs
arcs [] = []
arcs (n ∷ ns) = into n.node_id n.parents ++ arcs ns

-- The targets of the arcs out of `cur`.
abbrev pub children : String → Arcs → List String
children cur [] = []
children cur ((p, c) ∷ es) = if p == cur then c ∷ children cur es else children cur es

-- How many arcs into `c` have a source that is not in `seen`.
abbrev pub pending : List String → Arcs → String → ℕ
pending seen [] c = 0
pending seen ((p, x) ∷ es) c =
    (if x == c then one_if (not (contains seen p)) else 0) + pending seen es c

pub pending-append :
    (seen : List String) (es fs : Arcs) (c : String)
    → pending seen (es ++ fs) c ≡ pending seen es c + pending seen fs c
pending-append seen [] fs c = omega arith
pending-append seen ((p, x) ∷ es) fs c = omega (arith, pending-append seen es fs c)

pub children-append :
    (cur : String) (es fs : Arcs) (c : String)
    → count c (children cur (es ++ fs)) ≡ count c (children cur es) + count c (children cur fs)
children-append cur [] fs c = omega arith
children-append cur ((p, x) ∷ es) fs c = ground (arith, children-append cur es fs c)

-- Visiting `cur` settles the arcs out of it.
pub pending-visit :
    (seen : List String) (cur : String) (es : Arcs) (c : String)
    → count cur seen ≡ 0
    → pending seen es c ≡ pending (seen ++ cur ∷ []) es c + count c (children cur es)
pending-visit seen cur [] c h = omega arith
pending-visit seen cur ((p, x) ∷ es) c h = ground (
  arith,
  eq_iff p cur,
  eq_iff cur p,
  eq_iff x c,
  count-append p seen (cur ∷ []),
  pending-visit seen cur es c h,
)

-- Every target is a node of the plan.
pub into-target :
    (id cur x : String) (ps : List String) → 0 < count x (children cur (into id ps)) → id ≡ x
into-target id cur x [] h = absurd (omega arith)
into-target id cur x (p ∷ ps) h = ground (arith, eq_iff id x, into-target id cur x ps)

pub children_known :
    (ns : List Node) (cur x : String) → 0 < count x (children cur (arcs ns)) → 0 < count x (ids ns)
children_known [] cur x h = omega arith
children_known (n ∷ ns) cur x h = ground (
  arith,
  eq_iff n.node_id x,
  children-append cur (into n.node_id n.parents) (arcs ns) x,
  into-target n.node_id cur x n.parents,
  children_known ns cur x,
)

-- Every node of the list that is named `c` has its parents in `seen`.
abbrev pub ParentsIn : List Node → List String → String → Type 0
ParentsIn [] seen c = Unit
ParentsIn (n ∷ ns) seen c =
    (n.node_id ≡ c → (p : String) → 0 < count p n.parents → 0 < count p seen) × ParentsIn ns seen c

parents-settled :
    (id : String) (ps seen : List String) (c : String)
    → pending seen (into id ps) c ≡ 0
    → id ≡ c
    → (p : String) → 0 < count p ps
    → 0 < count p seen
parents-settled id [] seen c h e p k = absurd (omega arith)
parents-settled id (x ∷ ps) seen c h e p k =
    ground (arith, eq_iff id c, eq_iff x p, parents-settled id ps seen c (omega arith) e p)

pub pending-ParentsIn :
    (ns : List Node) (seen : List String) (c : String)
    → pending seen (arcs ns) c ≡ 0
    → ParentsIn ns seen c
pending-ParentsIn [] seen c h = tt
pending-ParentsIn (n ∷ ns) seen c h =
    let e = pending-append seen (into n.node_id n.parents) (arcs ns) c in
    (
      parents-settled n.node_id n.parents seen c (omega arith),
      pending-ParentsIn ns seen c (omega arith),
    )

settled-parents :
    (id : String) (ps seen : List String) (c : String)
    → (id ≡ c → (p : String) → 0 < count p ps → 0 < count p seen)
    → pending seen (into id ps) c ≡ 0
settled-parents id [] seen c h = refl
settled-parents id (x ∷ ps) seen c h =
    let rest = settled-parents id ps seen c (λ e p k. h e p (omega arith)) in
    elim (Bool-cases (id == c)) [
      | inl same ↦
          let seen_x = h ((eq_iff id c).0 same) x (ground (arith, eq_iff x x)) in
          ground (arith, same, seen_x, rest)
      | inr other ↦ ground (arith, other, rest)
    ]

pub ParentsIn-pending :
    (ns : List Node) (seen : List String) (c : String)
    → ParentsIn ns seen c
    → pending seen (arcs ns) c ≡ 0
ParentsIn-pending [] seen c h = refl
ParentsIn-pending (n ∷ ns) seen c h = omega (
  arith,
  pending-append seen (into n.node_id n.parents) (arcs ns) c,
  settled-parents n.node_id n.parents seen c h.0,
  ParentsIn-pending ns seen c h.1,
)
