-- ===== src/Examples/Missions.antt =====
-- A small mission with a delegation, a contract and an attempt that was superseded.
use hermes_gpt.Prelude.{ℕ, ◌<◌, String, ◌≡◌, ◌⊎◌, ◌↔◌, refl, true, false, some, none, [], ◌∷◌, ◌==◌}
use hermes_gpt.Prelude.Rows.{select, update}
use hermes_gpt.Policy.{require_owner, effective_dry_run}
use hermes_gpt.Plan.Ids.{is_mission_id}
use hermes_gpt.Mission.Defs.{
  Status, AttachmentState, delegation, plain, superseded_by, MissionRow, Attachment, MissionDb,
  mission_row, attached, event, is_terminal_status,
}
use hermes_gpt.Mission.Stores.{DelegationReply, Stores, workflow_state, delegation_state}
use hermes_gpt.Mission.Observe.{
  by_ref, follow, resolve_successor, is_marked, is_verified_superseded, observe, observe_from,
  observe_attachments, approvable, snapshots,
}
use hermes_gpt.Mission.Observe.Successor.{Chain, resolve_successor_iff}
use hermes_gpt.Mission.Guards.{
  World, get_row, completion_guard, guard_rows, may_complete, same_authority,
}
use hermes_gpt.Mission.Attach.{is_ref, clip}
use hermes_gpt.Mission.Attach.Bridges.{reserve_delegation_attachment}
use hermes_gpt.Mission.Attach.Quiet.{attachment_call, attachment_call-Keeps, reserving, Keeps}
use hermes_gpt.Mission.Attach.Reserve.{reserve_again}
use hermes_gpt.Mission.Lifecycle.{Request, commit, conclude, confirmed}
use hermes_gpt.Mission.Lifecycle.Approve.{approve, approve_decide}
use hermes_gpt.Mission.Lifecycle.Evolves.{Follows, Follows-refl}
use hermes_gpt.Mission.Lifecycle.Evolves.Decided.{Grounded}
use hermes_gpt.Mission.Lifecycle.Completed.{call, approving, call-Follows, call_completes}
use hermes_gpt.Examples.Operators.{owner_policy}

abbrev attempt : String → Attachment
attempt ref = record {
  mission_id = "msn-1";
  kind = delegation;
  ref = ref;
  relationship = plain "contains";
  state = AttachmentState.pending;
  evidence_ref = "contract:c1";
  verified = false;
  created_at = "t0";
  updated_at = "t0";
}

abbrev first_attempt : Attachment
first_attempt = record (attempt "dlg-1") { relationship = superseded_by "dlg-2" }

abbrev pub waiting : MissionRow
waiting = record {
  mission_id = "msn-1";
  final_approval_required = true;
  status = Status.awaiting_approval;
  version = 7;
  approved = false;
  updated_at = "t0";
}

abbrev pub db : MissionDb
db = record {
  missions = waiting ∷ [];
  attachments = first_attempt ∷ attempt "dlg-2" ∷ [];
  mission_events = [];
}

abbrev reply_with : String → DelegationReply
reply_with state = record {
  mission_id = "msn-1";
  authority_version = 3;
  cancellation_in_progress = false;
  cancel_requested = false;
  state = state;
  contract_sha256 = "c1";
  validation_verdict = "SATISFIED";
  evidence_ref = "contract:c1";
}

-- The first attempt has failed, its successor has succeeded.
abbrev stores : Stores
stores = record {
  workflow_status = λ ref. none;
  delegation_reply = λ ref. elim (ref == "dlg-2") [
    | true ↦ some (reply_with "succeeded")
    | false ↦ some (reply_with "failed")
  ];
  recovery_pending = λ ref. none;
}

abbrev pub world : World
world = record {
  stores = λ k. stores;
  stores_again = λ k. stores;
  stores_late = stores;
  delegations = λ ref. some (record {
    mission_id = "msn-1";
    authority_version = 3;
    cancel_requested = false;
    cancellation_in_progress = false;
    state = "succeeded";
  });
  others = λ d. d;
}

abbrev request : Request
request = record { mission_id = "msn-1"; text_length = 9; confirm = true; dry_run = false }

call-Follows_example : Follows db (call owner_policy world db (approving request "t1"))
call-Follows_example = call-Follows owner_policy world db (approving request "t1") (Follows-refl db)

abbrev approved_row : MissionRow
approved_row = record waiting {
  status = Status.completed;
  version = 8;
  approved = true;
  updated_at = "t1";
}

approval_written :
    mission_row (call owner_policy world db (approving request "t1")) "msn-1" ≡ some approved_row
unfolding approve approve_decide conclude commit event select update confirmed require_owner
    effective_dry_run is_mission_id get_row attached observe_attachments observe_from observe
    is_verified_superseded is_marked resolve_successor follow workflow_state delegation_state
    approvable completion_guard snapshots guard_rows may_complete same_authority
approval_written = refl

call_completes_example :
    Grounded world db "msn-1"
    × (waiting.final_approval_required ≡ true
        → (waiting.approved ≡ true) ⊎ (owner_policy.owner_mode_ready ≡ true))
unfolding select is_terminal_status
call_completes_example =
    call_completes owner_policy world db (approving request "t1") "msn-1" waiting approved_row
      (Follows-refl db) refl refl approval_written refl

attachment_call-Keeps_example :
    Keeps db (attachment_call db (reserving "msn-1" "dlg-3" "contract:c2" "t1"))
attachment_call-Keeps_example =
    attachment_call-Keeps db (reserving "msn-1" "dlg-3" "contract:c2" "t1")

resolve_successor_iff_example :
    (resolve_successor (by_ref db.attachments) "dlg-1" ≡ some "dlg-2")
    ↔ ((n : ℕ) × (n < 16) × Chain (by_ref db.attachments) n "dlg-1" "dlg-2")
resolve_successor_iff_example = resolve_successor_iff (by_ref db.attachments) "dlg-1" "dlg-2"

reserved_once : (reserve_delegation_attachment db "msn-1" "dlg-3" "contract:c2" "t1").0 ≡ true
unfolding reserve_delegation_attachment is_ref select get_row is_mission_id attached
    is_terminal_status
reserved_once = refl

abbrev after : MissionDb
after = (reserve_delegation_attachment db "msn-1" "dlg-3" "contract:c2" "t1").1

reserve_again_example :
    reserve_delegation_attachment after "msn-1" "dlg-3" "contract:c2" "t2"
    ≡ (clip 256 "contract:c2" == "contract:c2", after)
unfolding select
reserve_again_example = reserve_again db "msn-1" "dlg-3" "contract:c2" "t1" "t2" refl reserved_once
