-- ===== src/Mission/Lifecycle/Transition.antt =====
-- operator_mission_runtime.py: hermes_mission_transition.
pub mod Sound
pub mod Pause
use mathlib.Core.Path.{subst}
use hermes_gpt.Prelude.{
  ◌≡◌, refl, arith, ap, inl, inr, Bool-cases, String, Bool, true, false, Option, none, some, List,
  [], ◌&&◌, ◌||◌, not, any, leb, if◌then◌else◌,
}
use hermes_gpt.Prelude.Result.{
  Result, ok, err, bind_ok, permission_error, value_error, ◌>>=◌, ◌>>◌, require,
}
use hermes_gpt.Policy.{
  OperatorPolicy, workspace, require_level, require_mutation, require_owner, effective_dry_run,
}
use hermes_gpt.Mission.Defs.{
  Status, same_status, same_status_sound, is_terminal_status, mission_transitions, same_kind,
  delegation, AttachmentState, same_attachment_state, MissionRow, MissionDb, attached,
}
use hermes_gpt.Mission.Observe.{Observed, desired_mission_status}
use hermes_gpt.Mission.Guards.{World, get_row, completion_guard, cancellation_guard, same_authority}
use hermes_gpt.Mission.Observe.Justified.{desired_completed, Justified-approvable}
use hermes_gpt.Mission.Lifecycle.Evolves.{Follows, Follows-trans}
use hermes_gpt.Mission.Lifecycle.Evolves.Decided.{
  Permission, Permitted, Grounded, get_row_sound, same_row, conclude-Follows,
}
use hermes_gpt.Mission.Lifecycle.{Request, Reply, Decision, conclude, confirmed, observed_in}

abbrev pub is_active : AttachmentState → Bool
is_active s =
    same_attachment_state s AttachmentState.pending
    || (same_attachment_state s AttachmentState.running
        || same_attachment_state s AttachmentState.blocked)

-- `active` in validate
abbrev pub has_active : List Observed → Bool
has_active items = any (λ i. same_kind i.kind delegation && is_active i.state) items

-- validate: is the status to be changed?
unfoldable pub validate_transition : MissionRow → List Observed → Status → Result Bool
validate_transition m items target =
    if is_terminal_status m.status
    then err value_error
    else if same_status target m.status
    then ok false
    else if same_status target Status.cancelled && has_active items
    then err value_error
    else if not (same_status target Status.completed) && not (mission_transitions m.status target)
    then err value_error
    else if same_status target Status.completed && m.final_approval_required
    then err permission_error
    else if same_status target Status.completed
        && not (same_status (desired_mission_status m items) Status.completed)
    then err value_error
    else ok true

transitioned : MissionRow → Status → Bool → Decision
transitioned m target changed = record {
  from_status = m.status;
  to_status = target;
  event_type = "mission.transition";
  recorded = [];
  approve = false;
  changed = changed;
}

transition_completed : World → MissionDb → String → Result Decision
unfolding transitioned
transition_completed w db m = do
  seen ← get_row db m
  changed ← validate_transition seen (observed_in w.stores db m) Status.completed
  let again = observed_in w.stores_again db m
  require (same_status (desired_mission_status seen again) Status.completed) value_error
  completion_guard w.delegations m again
  current ← same_authority (w.others db) m seen
  ok (transitioned seen Status.completed true)

transition_cancelled : World → MissionDb → String → Result Decision
unfolding transitioned
transition_cancelled w db m = do
  seen ← get_row db m
  let items = observed_in w.stores db m
  changed ← validate_transition seen items Status.cancelled
  cancellation_guard w.delegations m items
  current ← same_authority (w.others db) m seen
  ok (transitioned seen Status.cancelled changed)

-- In one transaction on `db`: a dry run, and every other target.
transition_plain : World → MissionDb → String → Status → Result Decision
unfolding transitioned
transition_plain w db m target = do
  seen ← get_row db m
  changed ← validate_transition seen (observed_in w.stores db m) target
  ok (transitioned seen target changed)

transition_to : OperatorPolicy → World → MissionDb → Request → Status → Result Decision
unfolding transition_completed transition_cancelled transition_plain
transition_to p w db q target =
    if effective_dry_run p q.dry_run
    then transition_plain w db q.mission_id target
    else if same_status target Status.completed
    then transition_completed w db q.mission_id
    else if same_status target Status.cancelled
    then transition_cancelled w db q.mission_id
    else transition_plain w (w.others db) q.mission_id target

-- `none` stands for a status that is not in STATUSES.
unfoldable pub transition_decide :
    OperatorPolicy → World → MissionDb → Request → Option Status → Result Decision
unfolding confirmed transition_to
transition_decide p w db q none = err value_error
transition_decide p w db q (some target) = do
  require_level p workspace
  require_mutation p q.dry_run
  require (leb q.text_length 1000) value_error
  if same_status target Status.completed then require_owner p q.dry_run else ok tt
  require (not (same_status target Status.awaiting_approval)) value_error
  confirmed p q
  transition_to p w db q target

-- hermes_mission_transition
unfoldable pub transition :
    OperatorPolicy → World → MissionDb → Request → Option Status → String → Result Reply × MissionDb
unfolding transition_decide
transition p w db q target now = conclude p (w.others db) q now (transition_decide p w db q target)
