-- ===== src/Mission/Lifecycle.antt =====
-- operator_mission_runtime.py: hermes_mission_reconcile, hermes_mission_transition and
-- hermes_mission_approve. Each decides first and then writes in one transaction.
pub mod Reconcile
pub mod Transition
pub mod Approve
pub mod Evolves
pub mod Completed
use hermes_gpt.Prelude.{
  ℕ, suc, String, Bool, true, false, Option, none, some, List, [], ◌∷◌, ◌==◌, ◌&&◌, ◌||◌, not, any,
  all, eqb, leb, length, if◌then◌else◌,
}
use hermes_gpt.Prelude.Result.{
  Error, Result, ok, err, permission_error, value_error, ◌>>=◌, ◌>>◌, require,
}
use hermes_gpt.Prelude.Rows.{update}
use hermes_gpt.Policy.{
  OperatorPolicy, workspace, require_level, require_mutation, require_owner, effective_dry_run,
}
use hermes_gpt.Mission.Defs.{
  Status, same_status, is_terminal_status, mission_transitions, AttachmentKind, same_kind,
  delegation, AttachmentState, same_attachment_state, MissionRow, Attachment, MissionDb,
  mission_key, attachment_key, attached, event,
}
use hermes_gpt.Mission.Stores.{Stores}
use hermes_gpt.Mission.Observe.{
  Observed, observe_attachments, desired_mission_status, has_state, is_done,
}
use hermes_gpt.Mission.Guards.{World, get_row, completion_guard, cancellation_guard, same_authority}

-- The arguments that the three calls share. `text_length` is the length of the stripped reason,
-- or approval reference.
pub record Request : Type 0 where
  pub mission_id : String
  pub text_length : ℕ
  pub confirm : Bool
  pub dry_run : Bool

-- The JSON of a successful reply: the status that was read, the status aimed at.
pub record Reply : Type 0 where
  pub from_status : Status
  pub to_status : Status
  pub changed : Bool

-- What a call has decided to write: the observation to record, the new status and the approval.
pub record Decision : Type 0 where
  pub from_status : Status
  pub to_status : Status
  pub event_type : String
  pub recorded : List Observed
  pub approve : Bool
  pub changed : Bool

-- The UPDATE of one attachment by its observation.
record_item : String → String → Observed → Attachment → Attachment
record_item m now i a = record a { state = i.state; verified = i.verified; updated_at = now }

record_items : String → String → List Observed → List Attachment → List Attachment
unfolding record_item
record_items m now [] rows = rows
record_items m now (i ∷ items) rows =
    record_items m now items (update (attachment_key m i.kind i.ref) (record_item m now i) rows)

-- The UPDATE of the mission: `status=?,version=version+1,updated_at=?`, and approval_json.
pub decided : Decision → String → MissionRow → MissionRow
decided d now r = record r {
  status = d.to_status;
  version = suc r.version;
  approved = d.approve || r.approved;
  updated_at = now;
}

-- The write transaction.
unfoldable pub commit : String → String → Decision → MissionDb → MissionDb
unfolding record_items decided
commit m now d db =
    if d.changed
    then event m d.event_type (some d.from_status) (some d.to_status) now (record db {
      missions = update (mission_key m) (decided d now) db.missions;
      attachments = record_items m now d.recorded db.attachments;
    })
    else db

reply_of : Decision → Bool → Reply
reply_of d changed = record {
  from_status = d.from_status;
  to_status = d.to_status;
  changed = changed;
}

-- An exception rolls back; `db` is the database at the time of the transaction.
unfoldable pub conclude :
    OperatorPolicy → MissionDb → Request → String → Result Decision → Result Reply × MissionDb
unfolding reply_of
conclude p db q now (err e) = (err e, db)
conclude p db q now (ok d) =
    if effective_dry_run p q.dry_run
    then (ok (reply_of d false), db)
    else (ok (reply_of d d.changed), commit q.mission_id now d db)

-- `confirm` is asked for unless the call is a dry run.
unfoldable pub confirmed : OperatorPolicy → Request → Result (Unit {0})
confirmed p q = require (effective_dry_run p q.dry_run || q.confirm) permission_error

-- The attachments as one of the reads of the call finds them.
abbrev pub observed_in : (ℕ → Stores) → MissionDb → String → List Observed
observed_in stores db m = observe_attachments stores m (attached m db.attachments)
