-- ===== src/Plan/Gate/Walk.antt =====
-- The walk of hermes_plan_approve_gate over the planned steps.
use mathlib.Core.List.{append-nil, append_assoc}
use mathlib.Core.Path.{ap}
use hermes_gpt.Prelude.{
  ℕ, suc, ◌+◌, ◌≤◌, String, ◌≡◌, refl, ◌∙◌, true, false, some, List, [], ◌∷◌, ◌++◌, arith,
}
use hermes_gpt.Prelude.Result.{ok}
use hermes_gpt.Prelude.Rows.{select}
use hermes_gpt.Policy.{OperatorPolicy, workspace, direct, require_level, effective_dry_run}
use hermes_gpt.Plan.State.{NodeState, node_state_of, validate_node_transition, completed}
use hermes_gpt.Plan.Store.{PlanRow, PlanDb, plan_key}
use hermes_gpt.Plan.Transition
use hermes_gpt.Plan.Transition.{checks, write, node_transition, node_transition_finish}
use hermes_gpt.Plan.Transition.Follows.{node_state, checks-Checked, updated_self}
use hermes_gpt.Plan.Transition.Errors.{written, written_reply, plans_kept}
use hermes_gpt.Plan.Gate.{Request, approved, state_name, step_request, walk}
use hermes_gpt.Plan.Gate.Path.{IsPath}

-- The names that the walk sends are read back as the states they name.
pub node_state_of-state_name : (s : NodeState) → node_state_of (state_name s) ≡ some s
unfolding node_state_of state_name
node_state_of-state_name NodeState.pending = refl
node_state_of-state_name _ = refl

-- A policy under which a step is a real write.
pub record Writes (p : OperatorPolicy) : Type 0 where
  pub level : require_level p workspace ≡ ok tt
  pub mode : p.apply_mode ≡ direct
  pub enabled : p.enabled ≡ true

module _ (p : OperatorPolicy) (w : Writes p) (q : Request) (now : String) where
  step_checks :
      (db : PlanDb) (cas : ℕ) (plan : PlanRow) {s t : NodeState}
      → select (plan_key q.mission_id) db.mission_plans ≡ some plan
      → plan.version ≡ cas
      → node_state db q.mission_id q.node_id ≡ some s
      → validate_node_transition s t ≡ true
      → checks p db (step_request q t cas) ≡ ok (s, t)
  unfolding checks
  step_checks db cas plan {t = t} found version at edge =
      ground (arith, node_state_of-state_name t, w.level, w.mode)

  -- A step that the walk makes is answered, moves the node and leaves the plans alone.
  record Step (db : PlanDb) (t : NodeState) (cas : ℕ) : Type 0 where
    reply : Transition.Reply
    answered : (node_transition p db (step_request q t cas) now).0 ≡ ok reply
    moved :
        node_state (node_transition p db (step_request q t cas) now).1 q.mission_id q.node_id
        ≡ some t
    plans : (node_transition p db (step_request q t cas) now).1.mission_plans ≡ db.mission_plans

  Step-made :
      (db : PlanDb) (cas : ℕ) (plan : PlanRow) {s t : NodeState}
      → q.reason_length ≤ 120
      → select (plan_key q.mission_id) db.mission_plans ≡ some plan
      → plan.version ≡ cas
      → node_state db q.mission_id q.node_id ≡ some s
      → validate_node_transition s t ≡ true
      → Step db t cas
  Step-made db cas plan {s = s} {t = t} short found version at edge =
      let c = step_checks db cas plan found version at edge in
      let wet : effective_dry_run p false ≡ false = unfold effective_dry_run in rw w.mode refl in
      record {
        reply = record { from_state = s; to_state = t; changed = true; dry_run = false };
        answered = written_reply p db (step_request q t cas) now c wet (ground arith);
        moved =
            updated_self p db (step_request q t cas) now (checks-Checked p db _ c)
              (written p db (step_request q t cas) now c wet);
        plans = plans_kept p db (step_request q t cas) now;
      }

-- Writers that leave the row of the node and the row of its plan alone.
pub record Quiet (q : Request) (others : ℕ → PlanDb → PlanDb) : Type 0 where
  pub node :
      (k : ℕ) (d : PlanDb)
      → node_state (others k d) q.mission_id q.node_id ≡ node_state d q.mission_id q.node_id
  pub plan :
      (k : ℕ) (d : PlanDb)
      → select (plan_key q.mission_id) (others k d).mission_plans
        ≡ select (plan_key q.mission_id) d.mission_plans

-- One round of the loop, when the step is answered and the plan is read again.
walk_round :
    (p : OperatorPolicy) (others : ℕ → PlanDb → PlanDb) (q : Request) (now : String) (k : ℕ)
    (t : NodeState) (ts applied : List NodeState) (cas : ℕ) (db : PlanDb) (r : Transition.Reply)
    (plan : PlanRow)
    → (node_transition p (others (k + k) db) (step_request q t cas) now).0 ≡ ok r
    → select
        (plan_key q.mission_id)
        (others
          (suc (k + k))
          (node_transition p (others (k + k) db) (step_request q t cas) now).1).mission_plans
      ≡ some plan
    → walk p others q now k (t ∷ ts) applied cas db
      ≡ walk p others q now (suc k) ts (applied ++ t ∷ []) plan.version (
          others (suc (k + k)) (node_transition p (others (k + k) db) (step_request q t cas) now).1)
walk_round p others q now k t ts applied cas db r plan answered found =
    unfold walk in rw (answered, walk) (rw (found, walk) refl)

module _ (p : OperatorPolicy) (w : Writes p) (q : Request) (now : String)
    (others : ℕ → PlanDb → PlanDb) (quiet : Quiet q others) (short : q.reason_length ≤ 120) where
  -- With a plan at the expected version and a legal path ahead, the walk applies every step and
  -- the node ends at `completed`.
  pub walk_completes :
      (k : ℕ) (steps applied : List NodeState) (cas : ℕ) (db : PlanDb) (plan : PlanRow)
      (s : NodeState)
      → select (plan_key q.mission_id) db.mission_plans ≡ some plan
      → plan.version ≡ cas
      → node_state db q.mission_id q.node_id ≡ some s
      → IsPath s steps completed
      → ((walk p others q now k steps applied cas db).0 ≡ approved (applied ++ steps))
        × (node_state (walk p others q now k steps applied cas db).1 q.mission_id q.node_id
            ≡ some completed)
  walk_completes k [] applied cas db plan s found version at path =
      unfold walk in (rw append-nil refl, at ∙ ap some path)
  walk_completes k (t ∷ ts) applied cas db plan s found version at path =
      let before = others (k + k) db in
      let after = (node_transition p before (step_request q t cas) now).1 in
      let seen = others (suc (k + k)) after in
      let made =
        Step-made p w q now before cas plan short (quiet.plan (k + k) db ∙ found) version
          (quiet.node (k + k) db ∙ at) path.0 in
      let reread : select (plan_key q.mission_id) seen.mission_plans ≡ some plan =
        quiet.plan (suc (k + k)) after
        ∙ ap (select (plan_key q.mission_id)) made.plans
        ∙ quiet.plan (k + k) db
        ∙ found in
      let (all_applied, ends) =
        walk_completes (suc k) ts (applied ++ t ∷ []) plan.version seen plan t reread refl
          (quiet.node (suc (k + k)) after ∙ made.moved) path.1 in
      rw (walk_round p others q now k t ts applied cas db made.reply plan made.answered reread)
        (all_applied ∙ ap approved (append_assoc applied (t ∷ []) ts), ends)
