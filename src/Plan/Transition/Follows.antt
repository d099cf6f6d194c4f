-- ===== src/Plan/Transition/Follows.antt =====
-- What hermes_plan_node_transition does to the stored nodes.
use mathlib.Core.Option
use mathlib.Core.Option.{some-injective}
use mathlib.Core.Path.{ap, subst}
use hermes_gpt.Prelude.{
  String, ◌≡◌, refl, sym, ◌∙◌, ◌++◌, none, ◌⊎◌, inl, inr, true, Option, some, List, [], ◌∷◌, arith,
  Bool-cases, Option-cases, eq_iff, if◌then◌else◌,
}
use hermes_gpt.Prelude.Result.{Result, ok, err}
use hermes_gpt.Prelude.Rows.{select, update, select_sound, select-update}
use hermes_gpt.Policy.{OperatorPolicy, effective_dry_run}
use hermes_gpt.Plan.State.{NodeState, completed, same_state, is_terminal, validate_node_transition}
use hermes_gpt.Plan.State.Graph.{
  Run, here, step, Within, trace, needed, run_needed, Run_of_terminal,
}
use hermes_gpt.Plan.Store.{NodeRow, PlanDb, node_key}
use hermes_gpt.Plan.Transition.{
  Request, checks, moved, write, node_transition, node_transition_finish,
}

-- The stored state of a node.
abbrev pub node_state : PlanDb → String → String → Option NodeState
node_state db m n = Option.map (λ r. r.state) (select (node_key m n) db.plan_nodes)

-- What the checks establish: the legal edge that the call is about.
pub record Checked (p : OperatorPolicy) (db : PlanDb) (q : Request) (s t : NodeState) : Type 0 where
  pub found : node_state db q.mission_id q.node_id ≡ some s
  pub legal : validate_node_transition s t ≡ true

pub checks-Checked :
    (p : OperatorPolicy) (db : PlanDb) (q : Request) {s t : NodeState}
    → checks p db q ≡ ok (s, t)
    → Checked p db q s t
unfolding checks
checks-Checked p db q h = ground arith

-- The two columns of a node's key.
same_key :
    (m n m' n' : String) (r : NodeRow)
    → node_key m n r ≡ true
    → node_key m' n' r ≡ true
    → (m ≡ m') × (n ≡ n')
same_key m n m' n' r a b =
    ground (
      arith,
      eq_iff r.mission_id m,
      eq_iff r.mission_id m',
      eq_iff r.node_id n,
      eq_iff r.node_id n',
    )

-- The state that is entered when a node's state has become the second: none when it is the same.
abbrev pub entered : Option NodeState → Option NodeState → List NodeState
entered before none = []
entered none (some t) = t ∷ []
entered (some s) (some t) = if same_state s t then [] else t ∷ []

entered_here : (s : NodeState) → entered (some s) (some s) ≡ []
entered_here s = ground arith

entered_step :
    (s t : NodeState) → validate_node_transition s t ≡ true → entered (some s) (some t) ≡ t ∷ []
unfolding validate_node_transition
entered_step s t e = ground arith

module _ (p : OperatorPolicy) (db : PlanDb) (q : Request) (now : String) where
  abbrev after : PlanDb
  after = (node_transition p db q now).1

  -- The transaction ends with nothing written, or the checks passed and the UPDATE has been made.
  finish_cases :
      (c : Result (NodeState × NodeState))
      → ((node_transition_finish p db q now c).1 ≡ db)
        ⊎ ((s : NodeState) × (t : NodeState) × (c ≡ ok (s, t))
            × ((node_transition_finish p db q now c).1.plan_nodes
                ≡ update (node_key q.mission_id q.node_id) (moved q t now) db.plan_nodes))
  unfolding node_transition_finish
  finish_cases (err e) = inl refl
  finish_cases (ok (s, t)) = elim (Bool-cases (effective_dry_run p q.dry_run)) [
    | inl dry ↦ inl (rw (dry, write))
    | inr wet ↦ inr (s, t, refl, rw (wet, write))
  ]

  -- The row of a node after the UPDATE.
  row_updated :
      (m n : String) (t : NodeState) (r : NodeRow)
      → select (node_key m n) db.plan_nodes ≡ some r
      → after.plan_nodes ≡ update (node_key q.mission_id q.node_id) (moved q t now) db.plan_nodes
      → select (node_key m n) after.plan_nodes
        ≡ some (if node_key q.mission_id q.node_id r then moved q t now r else r)
  unfolding moved
  row_updated m n t r h e = rw e (
      select-update (node_key m n) (node_key q.mission_id q.node_id) (moved q t now) (λ x. refl)
        db.plan_nodes
      ∙ ap (Option.map _) h)

  -- The UPDATE moved the row that the checks had read.
  row-Checked :
      (m n : String) {s' t : NodeState} (r : NodeRow)
      → select (node_key m n) db.plan_nodes ≡ some r
      → Checked p db q s' t
      → node_key q.mission_id q.node_id r ≡ true
      → r.state ≡ s'
  row-Checked m n {s' = s'} r h c k =
      let (em, en) = same_key m n q.mission_id q.node_id r (select_sound _ db.plan_nodes r h) k in
      let found' : node_state db m n ≡ some s' = rw (em, en) c.found in ground arith

  -- What one call does to a node: a legal run, which enters what the call has made of its state.
  abbrev Moved : NodeState → String → String → Type 0
  Moved s m n =
      (u : NodeState) × (node_state after m n ≡ some u)
      × (r : Run s u) × (entered (some s) (some u) ≡ trace r)

  legal_edge :
      (m n : String) {s s' t : NodeState}
      → node_state db m n ≡ some s
      → Checked p db q s' t
      → (r : NodeRow) → select (node_key m n) db.plan_nodes ≡ some r
      → node_key q.mission_id q.node_id r ≡ true
      → validate_node_transition s t ≡ true
  legal_edge m n {t = t} h c r row k = ground (arith, row-Checked m n {t = t} r row c k, c.legal)

  updated :
      (m n : String) {s s' t : NodeState}
      → node_state db m n ≡ some s
      → Checked p db q s' t
      → after.plan_nodes ≡ update (node_key q.mission_id q.node_id) (moved q t now) db.plan_nodes
      → Moved s m n
  unfolding moved
  updated m n {s = s} {t = t} h c e = elim (Option-cases (select (node_key m n) db.plan_nodes)) [
    | inl no_row ↦ absurd (ground (arith, no_row))
    | inr (r, row) ↦ elim (Bool-cases (node_key q.mission_id q.node_id r)) [
      | inl k ↦ (
        t,
        ground (arith, row_updated m n t r row e),
        step t (legal_edge m n h c r row k) here,
        entered_step s t (legal_edge m n h c r row k),
      )
      | inr k ↦ (s, ground (arith, row_updated m n t r row e), here, entered_here s)
    ]
  ]

  -- The node of the call itself stands at the target.
  pub updated_self :
      {s t : NodeState}
      → Checked p db q s t
      → after.plan_nodes ≡ update (node_key q.mission_id q.node_id) (moved q t now) db.plan_nodes
      → node_state after q.mission_id q.node_id ≡ some t
  unfolding moved
  updated_self {t = t} c e =
      elim (Option-cases (select (node_key q.mission_id q.node_id) db.plan_nodes)) [
        | inl no_row ↦ absurd (ground (arith, no_row, c.found))
        | inr (r, row) ↦ ground (
          arith,
          row_updated q.mission_id q.node_id t r row e,
          select_sound _ db.plan_nodes r row,
        )
      ]

  -- One call moves each stored node along a legal run, and loses none.
  pub node_transition_run :
      (m n : String) {s : NodeState} → node_state db m n ≡ some s → Moved s m n
  unfolding node_transition
  node_transition_run m n {s = s} h = elim (finish_cases (checks p db q)) [
    | inl same ↦ (s, rw same h, here, entered_here s)
    | inr (s', t, c, e) ↦ updated m n h (checks-Checked p db q c) e
  ]

-- A call with its policy and its time.
pub record Call : Type 0 where
  pub policy : OperatorPolicy
  pub request : Request
  pub now : String

-- The table after a list of calls, from any callers in any order.
unfoldable pub serve : PlanDb → List Call → PlanDb
serve db [] = db
serve db (c ∷ cs) = serve (node_transition c.policy db c.request c.now).1 cs

-- The states that a node enters under a list of calls, as its row in the table after each call
-- shows them.
unfoldable pub history : PlanDb → List Call → String → String → List NodeState
history db [] m n = []
history db (c ∷ cs) m n =
    let next = (node_transition c.policy db c.request c.now).1 in
    entered (node_state db m n) (node_state next m n) ++ history next cs m n

append_run :
    {s t u : NodeState} (r : Run s t) (r' : Run t u)
    → (joined : Run s u) × (trace joined ≡ trace r ++ trace r')
append_run here r' = (r', refl)
append_run (step t e r) r' =
    let joined = append_run r r' in (step t e joined.0, ap (λ l. t ∷ l) joined.1)

-- The states that a node enters are those of a run of legal transitions.
serve_run :
    (db : PlanDb) (cs : List Call) (m n : String) {s : NodeState}
    → node_state db m n ≡ some s
    → (u : NodeState) × (node_state (serve db cs) m n ≡ some u)
      × (r : Run s u) × (history db cs m n ≡ trace r)
unfolding serve history
serve_run db [] m n {s = s} h = (s, h, here, refl)
serve_run db (c ∷ cs) m n h =
    let (u, found, r, e) = node_transition_run c.policy db c.request c.now m n h in
    let next = (node_transition c.policy db c.request c.now).1 in
    let (v, found', r', e') = serve_run next cs m n found in
    let joined = append_run r r' in (v, found', joined.0, rw (h, found) (rw (e, e') (sym joined.1)))

-- When a node stands at `completed` after calls of hermes_plan_node_transition, the states that its
-- row entered call by call hold, in this order, all that it lacked before them of running,
-- awaiting_review, validated, awaiting_approval and completed.
pub serve_completed :
    (db : PlanDb) (cs : List Call) (m n : String) {s : NodeState}
    → node_state db m n ≡ some s
    → node_state (serve db cs) m n ≡ some completed
    → Within (needed s) (history db cs m n)
serve_completed db cs m n {s = s} h done =
    let (u, found, r, e) = serve_run db cs m n h in
    let u_completed : u ≡ completed = ground arith in
    subst (Within (needed s)) (sym e) (run_needed r u_completed)

-- A node at `completed` or `failed` stays there, whatever calls of hermes_plan_node_transition are
-- made.
pub serve_terminal :
    (db : PlanDb) (cs : List Call) (m n : String) {s : NodeState}
    → node_state db m n ≡ some s
    → is_terminal s ≡ true
    → node_state (serve db cs) m n ≡ some s
serve_terminal db cs m n h final =
    let (u, found, r, e) = serve_run db cs m n h in ground (arith, Run_of_terminal r final)
