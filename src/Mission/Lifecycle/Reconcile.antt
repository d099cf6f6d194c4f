-- ===== src/Mission/Lifecycle/Reconcile.antt =====
-- operator_mission_runtime.py: hermes_mission_reconcile.
pub mod Sound
use hermes_gpt.Prelude.{
  ◌≡◌, refl, sym, arith, inl, inr, Bool-cases, String, Bool, true, false, none, some, List, [], ◌∷◌,
  ◌==◌, ◌&&◌, ◌||◌, not, any, if◌then◌else◌,
}
use hermes_gpt.Prelude.Result.{Result, ok, bind_ok, value_error, ◌>>=◌, ◌>>◌, require}
use hermes_gpt.Policy.{
  OperatorPolicy, workspace, require_level, require_mutation, effective_dry_run,
}
use hermes_gpt.Mission.Defs.{
  Status, same_status, same_status_sound, is_terminal_status, same_kind, delegation,
  AttachmentState, same_attachment_state, MissionRow, Attachment, MissionDb, attached, mission_row,
}
use hermes_gpt.Mission.Stores.{Stores}
use hermes_gpt.Mission.Observe.Justified.{
  Justified, desired_terminal, desired_completed, Justified-approvable,
}
use hermes_gpt.Mission.Observe.{Observed, observe_attachments, desired_mission_status, has_state}
use hermes_gpt.Mission.Guards.{World, get_row, completion_guard, same_authority}
use hermes_gpt.Mission.Lifecycle.Evolves.{Follows, Follows-trans}
use hermes_gpt.Mission.Lifecycle.Evolves.Decided.{
  Permission, get_row_sound, conclude-Follows, same_row,
}
use hermes_gpt.Mission.Lifecycle.{Request, Reply, Decision, conclude, confirmed, observed_in}

-- The loop over the failed items in _pending_recovery.
all_recovering : Stores → List Observed → Bool
all_recovering s [] = true
all_recovering s (i ∷ items) =
    let rest = all_recovering s items in
    if same_attachment_state i.state AttachmentState.failed
    then same_kind i.kind delegation
      && (elim (s.recovery_pending i.ref) [ none ↦ false | some pending ↦ pending ] && rest)
    else rest

-- _pending_recovery: is a failed status to wait for a recovery?
unfoldable pub pending_recovery : Stores → List Observed → Bool
unfolding all_recovering
pending_recovery s items = has_state AttachmentState.failed items && all_recovering s items

-- The status to enter: a failure waits while a recovery is pending.
awaited : Stores → MissionRow → List Observed → Status
awaited s m items =
    if same_status (desired_mission_status m items) Status.failed && pending_recovery s items
    then m.status
    else desired_mission_status m items

-- An item that differs from the attachment of its kind and reference.
differs : List Attachment → Observed → Bool
differs [] i = true
differs (a ∷ rows) i =
    let rest = differs rows i in
    if same_kind a.kind i.kind && a.ref == i.ref
    then not (
        same_attachment_state a.state i.state
        && (if a.verified then i.verified else not i.verified))
    else rest

reconciled : MissionRow → Status → List Observed → Bool → Decision
reconciled m to items changed = record {
  from_status = m.status;
  to_status = to;
  event_type = "mission.reconciled";
  recorded = items;
  approve = false;
  changed = changed;
}

-- `status not in TERMINAL_STATUSES and _desired_mission_status(...) == "completed"`
abbrev pub completes : MissionRow → List Observed → Bool
completes m items =
    not (is_terminal_status m.status)
    && same_status (desired_mission_status m items) Status.completed

-- The write path of a reconciliation that completes the mission.
reconcile_completed : World → MissionDb → String → MissionRow → List Observed → Result Decision
unfolding reconciled
reconcile_completed w db m seen items = do
  completion_guard w.delegations m items
  current ← same_authority db m seen
  ok (reconciled current Status.completed items true)

-- The write path of any other reconciliation.
reconcile_other :
    World → MissionDb → String → MissionRow → List Attachment → List Observed → Result Decision
unfolding reconciled awaited differs
reconcile_other w db m seen rows items = do
  current ← same_authority db m seen
  require (not (same_status (desired_mission_status seen items) Status.completed)) value_error
  let to = awaited (w.stores_late) seen items
  ok (reconciled seen to items (any (differs rows) items || not (same_status to seen.status)))

reconcile_seen :
    OperatorPolicy
    → World
    → MissionDb
    → Request
    → MissionRow
    → List Attachment
    → List Observed
    → Result Decision
unfolding reconciled awaited reconcile_completed reconcile_other
reconcile_seen p w db q seen rows items =
    if effective_dry_run p q.dry_run
    then ok (reconciled seen (awaited (w.stores_late) seen items) items false)
    else if completes seen items
    then reconcile_completed w (w.others db) q.mission_id seen items
    else reconcile_other w (w.others db) q.mission_id seen rows items

unfoldable pub reconcile_decide : OperatorPolicy → World → MissionDb → Request → Result Decision
unfolding confirmed reconcile_seen
reconcile_decide p w db q = do
  require_level p workspace
  require_mutation p q.dry_run
  confirmed p q
  seen ← get_row db q.mission_id
  let rows = attached q.mission_id db.attachments
  reconcile_seen p w db q seen rows (observe_attachments w.stores q.mission_id rows)

-- hermes_mission_reconcile
unfoldable pub reconcile :
    OperatorPolicy → World → MissionDb → Request → String → Result Reply × MissionDb
reconcile p w db q now = conclude p (w.others db) q now (reconcile_decide p w db q)
