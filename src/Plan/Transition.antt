-- ===== src/Plan/Transition.antt =====
-- operator_mission_plan.py: hermes_plan_node_transition.
pub mod Errors
pub mod Follows
use hermes_gpt.Prelude.{
  ℕ, ◌+◌, String, Bool, true, false, Option, none, some, not, ◌&&◌, ◌||◌, ltb, eqb, if◌then◌else◌,
}
use hermes_gpt.Prelude.Result.{
  Error, Result, ok, err, permission_error, value_error, lookup_error, version_conflict, ◌>>=◌,
  ◌>>◌, require,
}
use hermes_gpt.Prelude.Rows.{select, update}
use hermes_gpt.Policy.{
  OperatorPolicy, workspace, require_level, require_mutation, effective_dry_run,
}
use hermes_gpt.Plan.State.{NodeState, node_state_of, validate_node_transition}
use hermes_gpt.Plan.Store.{PlanRow, NodeRow, PlanDb, plan_key, node_key}

-- The call's arguments. `reason_length` is the length of the reason after `.strip()`, the only
-- thing that the handler tests of it.
pub record Request : Type 0 where
  pub mission_id : String
  pub node_id : String
  pub target_state : String
  pub reason_length : ℕ
  pub confirm : Bool
  pub dry_run : Bool
  pub expected_plan_version : Option ℕ
  pub bump_retries : Bool

-- The JSON of a successful reply.
pub record Reply : Type 0 where
  pub from_state : NodeState
  pub to_state : NodeState
  pub changed : Bool
  pub dry_run : Bool

version_of : Option PlanRow → Option ℕ
version_of none = none
version_of (some r) = some r.version

-- `actual_version != int(expected_plan_version)`
same_version : Option ℕ → ℕ → Bool
same_version none e = false
same_version (some v) e = eqb v e

check_version : Option ℕ → Option PlanRow → Result (Unit {0})
unfolding version_of same_version
check_version none row = ok tt
check_version (some e) row =
    require (same_version (version_of row) e) (version_conflict e (version_of row))

state_of : Option NodeRow → Result NodeState
state_of none = err lookup_error
state_of (some r) = ok r.state

target_of : String → Result NodeState
target_of name = elim (node_state_of name) [ none ↦ err value_error | some t ↦ ok t ]

-- The SET clause of the UPDATE.
pub moved : Request → NodeState → String → NodeRow → NodeRow
moved q target now r = record r {
  state = target;
  lease_lock = "";
  lease_expires = "";
  retries = r.retries + (if q.bump_retries then 1 else 0);
  updated_at = now;
}

-- All that is checked before anything is written: the current and the target state.
unfoldable pub checks : OperatorPolicy → PlanDb → Request → Result (NodeState × NodeState)
unfolding require_level require_mutation effective_dry_run check_version state_of target_of select
checks p db q = do
  require_level p workspace
  require_mutation p q.dry_run
  target ← target_of q.target_state
  require (effective_dry_run p q.dry_run || q.confirm) permission_error
  check_version q.expected_plan_version (select (plan_key q.mission_id) db.mission_plans)
  current ← state_of (select (node_key q.mission_id q.node_id) db.plan_nodes)
  require (validate_node_transition current target) value_error
  ok (current, target)

-- The audit record of a written transition cleans the reason: past 200 characters that raises, and
-- the `except` clause reports the failure, after `db.commit()`.
unfoldable pub write :
    OperatorPolicy → PlanDb → Request → String → NodeState × NodeState → Result Reply × PlanDb
unfolding moved update
write p db q now (current, target) =
    if effective_dry_run p q.dry_run
    then (
      ok (record { from_state = current; to_state = target; changed = false; dry_run = true }),
      db,
    )
    else (
      if ltb 200 q.reason_length
          then err value_error
          else ok
              (record { from_state = current; to_state = target; changed = true; dry_run = false }),
      record db {
        plan_nodes = update (node_key q.mission_id q.node_id) (moved q target now) db.plan_nodes;
      },
    )

unfoldable pub node_transition_finish :
    OperatorPolicy
    → PlanDb
    → Request
    → String
    → Result (NodeState × NodeState)
    → Result Reply × PlanDb
unfolding write
node_transition_finish p db q now (ok st) = write p db q now st
node_transition_finish p db q now (err e) = (err e, db)

-- hermes_plan_node_transition at the time `now`.
unfoldable pub node_transition : OperatorPolicy → PlanDb → Request → String → Result Reply × PlanDb
node_transition p db q now = node_transition_finish p db q now (checks p db q)
