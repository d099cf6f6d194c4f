-- ===== src/Mission/Attach/Bridges.antt =====
-- operator_mission_runtime.py: record_attachment_state, supersede_delegation_attachment and
-- reserve_delegation_attachment, the internal bridges that write attachments.
use hermes_gpt.Prelude.{
  String, Bool, true, false, Option, none, some, [], ◌∷◌, ◌++◌, ◌==◌, ◌&&◌, ◌||◌, not,
  if◌then◌else◌,
}
use hermes_gpt.Prelude.Result.{Result, ok, err}
use hermes_gpt.Prelude.Rows.{select, update}
use hermes_gpt.Mission.Defs.{
  is_terminal_status, AttachmentKind, same_kind, workflow, delegation, AttachmentState,
  same_attachment_state, superseded_by, plain, Attachment, MissionRow, MissionDb, attachment_key,
  attached, bump, event,
}
use hermes_gpt.Mission.Stores.{Stores, delegation_state}
use hermes_gpt.Mission.Observe.{by_ref, resolve_successor, has_ended_badly}
use hermes_gpt.Mission.Guards.{get_row}
use hermes_gpt.Mission.Attach.{is_ref, is_workflow_ref, clip, is_marker, marks, is_full}

unfoldable pub recorded : AttachmentState → String → Bool → String → Attachment → Attachment
recorded s evidence verified now a = record a {
  state = s;
  evidence_ref = clip 256 evidence;
  verified = verified && same_attachment_state s AttachmentState.succeeded;
  updated_at = now;
}

-- the arguments that are refused at once
pub may_record : AttachmentKind → String → AttachmentState → String → Bool → Bool
may_record k ref s evidence verified =
    (not (same_kind k workflow) || is_workflow_ref ref)
    && (not (same_attachment_state s AttachmentState.succeeded)
        || verified && not (clip 256 evidence == ""))

unfoldable pub record_write :
    MissionDb
    → String
    → AttachmentKind
    → String
    → AttachmentState
    → String
    → Bool
    → String
    → MissionDb
unfolding recorded
record_write db m k ref s evidence verified now = event m "mission.attachment_state" none none now (
    bump m now (record db {
      attachments =
          update (attachment_key m k ref) (recorded s evidence verified now) db.attachments;
    }))

unfoldable pub record_attachment_state :
    MissionDb
    → String
    → AttachmentKind
    → String
    → AttachmentState
    → String
    → Bool
    → String
    → Bool × MissionDb
unfolding record_write may_record
record_attachment_state db m k ref s evidence verified now =
    if may_record k ref s evidence verified
    then elim (select (attachment_key m k ref) db.attachments) [
      | none ↦ (false, db)
      | some _ ↦ (true, record_write db m k ref s evidence verified now)
    ]
    else (false, db)

-- supersede_delegation_attachment --------------------------------------------------------------

unfoldable pub superseded : String → String → Attachment → Attachment
superseded successor now a = record a { relationship = superseded_by successor; updated_at = now }

-- a chain from the successor that ends, and not at the old attempt
leads_elsewhere : Option String → String → Bool
leads_elsewhere none ref = false
leads_elsewhere (some end) ref = not (end == ref)

unfoldable pub supersede_write : MissionDb → String → String → String → String → MissionDb
unfolding superseded
supersede_write db m ref successor now = event m "mission.attachment_superseded" none none now (
    bump m now (record db {
      attachments =
          update (attachment_key m delegation ref) (superseded successor now) db.attachments;
    }))

-- what is checked of the old attempt: `none` refuses, `some false` finds the marker in place
supersede_check : Stores → String → (String → Option Attachment) → Attachment → String → Option Bool
unfolding marks is_marker leads_elsewhere
supersede_check s m find old successor =
    if marks old.relationship successor
    then some false
    else if is_marker old.relationship
        || (not (leads_elsewhere (resolve_successor find successor) old.ref)
            || not (has_ended_badly (delegation_state s m old.ref).0))
    then none
    else some true

supersede_over :
    Stores → MissionDb → String → String → String → (String → Option Attachment) → Option Bool
unfolding supersede_check
supersede_over s db m ref successor find = elim (find ref) [
  | none ↦ none
  | some old ↦ elim (find successor) [
    | none ↦ none
    | some _ ↦ supersede_check s m find old successor
  ]
]

pub supersede_decide : Stores → MissionDb → String → String → String → Option Bool
unfolding supersede_over
supersede_decide s db m ref successor =
    if is_ref ref && (is_ref successor && not (ref == successor))
    then elim (get_row db m) [
      | err _ ↦ none
      | ok row ↦
          if is_terminal_status row.status
          then none
          else supersede_over s db m ref successor (by_ref (attached m db.attachments))
    ]
    else none

unfoldable pub supersede_finish :
    MissionDb → String → String → String → String → Option Bool → Bool × MissionDb
unfolding supersede_write
supersede_finish db m ref successor now none = (false, db)
supersede_finish db m ref successor now (some changed) =
    (true, if changed then supersede_write db m ref successor now else db)

unfoldable pub supersede_delegation_attachment :
    Stores → MissionDb → String → String → String → String → Bool × MissionDb
unfolding supersede_decide supersede_finish
supersede_delegation_attachment s db m ref successor now =
    supersede_finish db m ref successor now (supersede_decide s db m ref successor)

-- reserve_delegation_attachment ----------------------------------------------------------------

unfoldable pub reserved : String → String → String → String → Attachment
reserved m ref evidence now = record {
  mission_id = m;
  kind = delegation;
  ref = ref;
  relationship = plain "contains";
  state = AttachmentState.pending;
  evidence_ref = clip 256 evidence;
  verified = false;
  created_at = now;
  updated_at = now;
}

unfoldable pub reserve_write : MissionDb → String → String → String → String → MissionDb
unfolding reserved
reserve_write db m ref evidence now =
    event m "mission.delegation_reserved" none none now
      (bump m now (record db { attachments = db.attachments ++ reserved m ref evidence now ∷ [] }))

-- over the reservation that is there already, if any
unfoldable pub reserve_over :
    MissionDb
    → String
    → String
    → String
    → String
    → MissionRow
    → Option Attachment
    → Bool × MissionDb
unfolding is_full reserve_write
reserve_over db m ref evidence now row (some old) =
    (old.evidence_ref == "" || old.evidence_ref == evidence, db)
reserve_over db m ref evidence now row none =
    if is_terminal_status row.status || is_full db m
    then (false, db)
    else (true, reserve_write db m ref evidence now)

unfoldable pub reserve_in :
    MissionDb → String → String → String → String → Result MissionRow → Bool × MissionDb
unfolding reserve_over
reserve_in db m ref evidence now (err e) = (false, db)
reserve_in db m ref evidence now (ok row) =
    reserve_over db m ref evidence now row (select (attachment_key m delegation ref) db.attachments)

unfoldable pub reserve_delegation_attachment :
    MissionDb → String → String → String → String → Bool × MissionDb
unfolding reserve_in
reserve_delegation_attachment db m ref evidence now =
    if is_ref ref && not (evidence == "")
    then reserve_in db m ref evidence now (get_row db m)
    else (false, db)
