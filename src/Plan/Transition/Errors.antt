-- ===== src/Plan/Transition/Errors.antt =====
-- The refusals of hermes_plan_node_transition, and what they leave in the tables.
use hermes_gpt.Prelude.{
  ℕ, ◌<◌, ◌≤◌, String, ◌≡◌, ◌≢◌, refl, inl, inr, true, false, some, arith, Option-cases,
}
use hermes_gpt.Prelude.Result.{Error, Result, ok, err, value_error}
use hermes_gpt.Prelude.Rows.{select, update}
use hermes_gpt.Policy.{OperatorPolicy, effective_dry_run}
use hermes_gpt.Plan.State.{NodeState}
use hermes_gpt.Plan.Store.{PlanRow, PlanDb, plan_key, node_key}
use hermes_gpt.Plan.Transition.{Request, checks, moved, node_transition, node_transition_finish}
use hermes_gpt.Plan.Transition.Follows.{checks-Checked, node_state, updated_self}

-- A result that is an error.
abbrev pub IsErr {ℓ} : {A : Type ℓ} → Result A → Type 0
IsErr (ok a) = ⊥
IsErr (err e) = Unit

-- Whatever the checks said, an error of the transaction, or a dry run, leaves the tables as they were.
module _ (p : OperatorPolicy) (db : PlanDb) (q : Request) (now : String) where
  finish_error :
      (c : Result (NodeState × NodeState)) {e : Error}
      → (node_transition_finish p db q now c).0 ≡ err e
      → q.reason_length ≤ 200
      → (node_transition_finish p db q now c).1 ≡ db
  unfolding node_transition_finish
  finish_error (err _) h short = refl
  finish_error (ok (s, t)) h short = ground arith

  stale_refused :
      (e : ℕ) (s t : NodeState)
      → q.expected_plan_version ≡ some e
      → ((r : PlanRow) → select (plan_key q.mission_id) db.mission_plans ≡ some r → r.version ≢ e)
      → ¬ (checks p db q ≡ ok (s, t))
  unfolding checks
  stale_refused e s t expected stale h =
      elim (Option-cases (select (plan_key q.mission_id) db.mission_plans)) [
        | inl no_plan ↦ ground arith
        | inr (r, plan) ↦ ground (arith, stale r plan)
      ]

  finish_refused :
      (c : Result (NodeState × NodeState))
      → ((s t : NodeState) → ¬ (c ≡ ok (s, t)))
      → IsErr (node_transition_finish p db q now c).0
        × ((node_transition_finish p db q now c).1 ≡ db)
  unfolding node_transition_finish
  finish_refused (err _) never = (tt, refl)
  finish_refused (ok (s, t)) never = absurd (never s t refl)

  finish_written :
      (c : Result (NodeState × NodeState)) {s t : NodeState}
      → c ≡ ok (s, t)
      → effective_dry_run p q.dry_run ≡ false
      → (node_transition_finish p db q now c).1.plan_nodes
        ≡ update (node_key q.mission_id q.node_id) (moved q t now) db.plan_nodes
  unfolding node_transition_finish
  finish_written (err _) h wet = cc
  finish_written (ok (s, t)) h wet = ground arith

  pub written :
      {s t : NodeState}
      → checks p db q ≡ ok (s, t)
      → effective_dry_run p q.dry_run ≡ false
      → (node_transition p db q now).1.plan_nodes
        ≡ update (node_key q.mission_id q.node_id) (moved q t now) db.plan_nodes
  unfolding node_transition
  written = finish_written (checks p db q)

  finish_reply :
      (c : Result (NodeState × NodeState)) {s t : NodeState}
      → c ≡ ok (s, t)
      → effective_dry_run p q.dry_run ≡ false
      → q.reason_length ≤ 200
      → (node_transition_finish p db q now c).0
        ≡ ok (record { from_state = s; to_state = t; changed = true; dry_run = false })
  unfolding node_transition_finish
  finish_reply (err _) h wet short = cc
  finish_reply (ok (s, t)) h wet short = ground arith

  -- The reply of a direct write.
  pub written_reply :
      {s t : NodeState}
      → checks p db q ≡ ok (s, t)
      → effective_dry_run p q.dry_run ≡ false
      → q.reason_length ≤ 200
      → (node_transition p db q now).0
        ≡ ok (record { from_state = s; to_state = t; changed = true; dry_run = false })
  unfolding node_transition
  written_reply = finish_reply (checks p db q)

  finish_plans :
      (c : Result (NodeState × NodeState))
      → (node_transition_finish p db q now c).1.mission_plans ≡ db.mission_plans
  unfolding node_transition_finish
  finish_plans (err _) = refl
  finish_plans (ok (s, t)) = ground arith

  -- No transition touches the plans.
  pub plans_kept : (node_transition p db q now).1.mission_plans ≡ db.mission_plans
  unfolding node_transition
  plans_kept = finish_plans (checks p db q)

  -- A refused call with a reason of at most 200 characters has written nothing.
  pub error_writes_nothing :
      {e : Error}
      → (node_transition p db q now).0 ≡ err e
      → q.reason_length ≤ 200
      → (node_transition p db q now).1 ≡ db
  unfolding node_transition
  error_writes_nothing = finish_error (checks p db q)

  -- When every check passes and the call is a direct write, a reason of more than 200 characters
  -- makes the reply an error although the node has been moved.
  pub late_rejection :
      {s t : NodeState}
      → checks p db q ≡ ok (s, t)
      → effective_dry_run p q.dry_run ≡ false
      → 200 < q.reason_length
      → ((node_transition p db q now).0 ≡ err value_error)
        × (node_state (node_transition p db q now).1 q.mission_id q.node_id ≡ some t)
  late_rejection {s = s} {t = t} c wet long = (
    unfold node_transition node_transition_finish in rw c (ground arith),
    updated_self p db q now (checks-Checked p db q c) (written c wet),
  )

  -- With an expected plan version that is not the stored one, or with no stored plan, the call is
  -- refused and writes nothing.
  pub stale_version :
      (e : ℕ)
      → q.expected_plan_version ≡ some e
      → ((r : PlanRow) → select (plan_key q.mission_id) db.mission_plans ≡ some r → r.version ≢ e)
      → IsErr (node_transition p db q now).0 × ((node_transition p db q now).1 ≡ db)
  unfolding node_transition
  stale_version e expected stale =
      finish_refused (checks p db q) (λ s t. stale_refused e s t expected stale)
