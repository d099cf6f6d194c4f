-- ===== src/Controller/Frontier.antt =====
-- operator_controller.py: _parent_done, _all_terminal and _frontier, the node that a pass acts on.
use hermes_gpt.Prelude.{
  String, Bool, true, false, Option, none, some, List, [], ◌∷◌, ◌==◌, ◌&&◌, ◌||◌, any, all, ◌≡◌,
  refl, ◌⊎◌, inl, inr, arith, Option-cases,
}
use hermes_gpt.Prelude.Rows.{select, select_sound}
use hermes_gpt.Plan.State.{
  NodeState, pending, blockable, dispatched, running, awaiting_review, validated, completed, failed,
  same_state, is_terminal,
}

-- What _read_nodes keeps of a node for the frontier, in the order of the identifiers.
pub record ControllerNode : Type 0 where
  pub node_id : String
  pub state : NodeState
  pub deps : List String

dep_completed : List ControllerNode → String → Bool
dep_completed nodes p = elim (select (λ n. n.node_id == p) nodes) [
  | none ↦ false
  | some parent ↦ same_state parent.state completed
]

-- _parent_done; an empty name is no parent
unfoldable pub parent_done : List ControllerNode → ControllerNode → Bool
unfolding dep_completed
parent_done nodes n = all (λ p. p == "" || dep_completed nodes p) n.deps

-- _all_terminal
unfoldable pub all_terminal : List ControllerNode → Bool
all_terminal [] = false
all_terminal (n ∷ nodes) = all (λ x. is_terminal x.state) (n ∷ nodes)

-- INFlight_ORDER
abbrev pub in_flight_order : List NodeState
in_flight_order = failed ∷ dispatched ∷ running ∷ awaiting_review ∷ validated ∷ []

-- READY_STATES
unfoldable pub is_ready_state : NodeState → Bool
is_ready_state pending = true
is_ready_state blockable = true
is_ready_state _ = false

-- the first loop, over the states that are left
in_flight : List NodeState → List ControllerNode → Option ControllerNode
in_flight [] nodes = none
in_flight (s ∷ states) nodes =
    let rest = in_flight states nodes in
    elim (select (λ n. same_state n.state s) nodes) [ none ↦ rest | some n ↦ some n ]

-- the second loop
abbrev pub is_actionable : List ControllerNode → ControllerNode → Bool
is_actionable nodes n = is_ready_state n.state && parent_done nodes n

-- _frontier
unfoldable pub frontier : List ControllerNode → Option ControllerNode
unfolding in_flight
frontier nodes = elim (in_flight in_flight_order nodes) [
  | none ↦ select (is_actionable nodes) nodes
  | some n ↦ some n
]

-- a node at one of the states
abbrev pub at_one_of : List NodeState → ControllerNode → Bool
at_one_of states n = any (λ s. same_state n.state s) states

in_flight_sound :
    (states : List NodeState) (nodes : List ControllerNode) (n : ControllerNode)
    → in_flight states nodes ≡ some n
    → at_one_of states n ≡ true
unfolding in_flight
in_flight_sound [] nodes n h = absurd cc
in_flight_sound (s ∷ states) nodes n h =
    elim (Option-cases (select (λ x. same_state x.state s) nodes)) [
      | inl absent ↦ ground (arith, absent, in_flight_sound states nodes n)
      | inr (x, found) ↦
          ground (arith, found, select_sound (λ y. same_state y.state s) nodes x found)
    ]

select-none :
    {A : Type 0} (p : A → Bool) (rows : List A) → select p rows ≡ none → any p rows ≡ false
unfolding select
select-none p [] h = refl
select-none p (r ∷ rows) h = ground (arith, select-none p rows)

any_or :
    {A : Type 0} (p q : A → Bool) (rows : List A)
    → any p rows ≡ false
    → any q rows ≡ false
    → any (λ r. p r || q r) rows ≡ false
any_or p q [] h k = refl
any_or p q (r ∷ rows) h k = ground (arith, any_or p q rows)

any_never : {A : Type 0} (rows : List A) → any (λ r. false) rows ≡ false
any_never [] = refl
any_never (r ∷ rows) = any_never rows

in_flight-none :
    (states : List NodeState) (nodes : List ControllerNode)
    → in_flight states nodes ≡ none
    → any (at_one_of states) nodes ≡ false
unfolding in_flight
in_flight-none [] nodes h = any_never nodes
in_flight-none (s ∷ states) nodes h =
    elim (Option-cases (select (λ x. same_state x.state s) nodes)) [
      | inl absent ↦
          any_or (λ x. same_state x.state s) (at_one_of states) nodes
            (select-none (λ x. same_state x.state s) nodes absent)
            (in_flight-none states nodes (ground (arith, absent)))
      | inr (x, found) ↦ absurd (ground (arith, found))
    ]

-- The frontier is a node in flight, or, where no node is in flight, a ready node whose parents are
-- all completed.
pub frontier_sound :
    (nodes : List ControllerNode) (n : ControllerNode)
    → frontier nodes ≡ some n
    → (at_one_of in_flight_order n ≡ true)
      ⊎ ((any (at_one_of in_flight_order) nodes ≡ false) × (is_actionable nodes n ≡ true))
unfolding frontier
frontier_sound nodes n h = elim (Option-cases (in_flight in_flight_order nodes)) [
  | inl idle ↦ inr (
    in_flight-none in_flight_order nodes idle,
    select_sound (is_actionable nodes) nodes n (ground (arith, idle)),
  )
  | inr (x, busy) ↦ inl (in_flight_sound in_flight_order nodes n (ground (arith, busy)))
]

-- There is no frontier only where no node is in flight and none is ready with all parents completed.
pub frontier-none :
    (nodes : List ControllerNode)
    → frontier nodes ≡ none
    → (any (at_one_of in_flight_order) nodes ≡ false) × (any (is_actionable nodes) nodes ≡ false)
unfolding frontier
frontier-none nodes h = elim (Option-cases (in_flight in_flight_order nodes)) [
  | inl idle ↦ (
    in_flight-none in_flight_order nodes idle,
    select-none (is_actionable nodes) nodes (ground (arith, idle)),
  )
  | inr (x, busy) ↦ absurd (ground (arith, busy))
]
