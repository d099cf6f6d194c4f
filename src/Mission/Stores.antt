-- ===== src/Mission/Stores.antt =====
-- operator_mission_runtime.py: _workflow_state and _delegation_state, and the stores they read.
use Prim.Native.String.{◌++◌}
use hermes_gpt.Prelude.{
  ℕ, String, Bool, true, false, Option, none, some, ◌==◌, ◌&&◌, ◌||◌, not, if◌then◌else◌, ◌≡◌, refl,
  inl, inr, arith, Option-cases,
}
use hermes_gpt.Mission.Defs.{AttachmentState, same_attachment_state}

-- What hermes_delegation_reconcile(ref, apply=False) replies when it succeeds.
pub record DelegationReply : Type 0 where
  pub mission_id : String
  pub authority_version : ℕ
  pub cancellation_in_progress : Bool
  pub cancel_requested : Bool
  pub state : String
  pub contract_sha256 : String
  pub validation_verdict : String
  pub evidence_ref : String

-- The stores that an observation reads.
pub record Stores : Type 0 where
  -- the `status` of a readable workflow file with a canonical reference
  pub workflow_status : String → Option String
  pub delegation_reply : String → Option DelegationReply
  -- autopilot.recovery_pending; `none` where it raises
  pub recovery_pending : String → Option Bool

named_workflow_state : String → AttachmentState
named_workflow_state s =
    if s == "running"
    then AttachmentState.running
    else if s == "blocked"
    then AttachmentState.blocked
    else if s == "awaiting_approval"
    then AttachmentState.blocked
    else if s == "done"
    then AttachmentState.succeeded
    else AttachmentState.unknown

-- _workflow_state
unfoldable pub workflow_state : Stores → String → AttachmentState
unfolding named_workflow_state
workflow_state s ref = elim (s.workflow_status ref) [
  | none ↦ AttachmentState.unknown
  | some name ↦ named_workflow_state name
]

-- the dictionary of the delegation states
unfoldable pub named_delegation_state : String → AttachmentState
named_delegation_state s =
    if s == "reserved"
    then AttachmentState.pending
    else if s == "queued"
    then AttachmentState.pending
    else if s == "running"
    then AttachmentState.running
    else if s == "reconciling"
    then AttachmentState.blocked
    else if s == "succeeded"
    then AttachmentState.succeeded
    else if s == "failed"
    then AttachmentState.failed
    else if s == "cancelled"
    then AttachmentState.cancelled
    else AttachmentState.blocked

evidence_verified : DelegationReply → Bool
evidence_verified r =
    not (r.contract_sha256 == "")
    && (r.validation_verdict == "SATISFIED" && r.evidence_ref == "contract:" ++ r.contract_sha256)

reply_state : String → DelegationReply → AttachmentState × (Bool × Option ℕ)
unfolding named_delegation_state evidence_verified
reply_state mission r =
    if not (r.mission_id == mission)
    then (AttachmentState.blocked, (false, none))
    else if r.cancellation_in_progress || r.cancel_requested && not (r.state == "cancelled")
    then (AttachmentState.blocked, (false, some r.authority_version))
    else if not (same_attachment_state (named_delegation_state r.state) AttachmentState.succeeded)
    then (named_delegation_state r.state, (false, some r.authority_version))
    else if evidence_verified r
    then (AttachmentState.succeeded, (true, some r.authority_version))
    else (AttachmentState.blocked, (false, some r.authority_version))

-- _delegation_state: the state, whether it is verified, and the authority version
unfoldable pub delegation_state : Stores → String → String → AttachmentState × (Bool × Option ℕ)
unfolding reply_state
delegation_state s mission ref = elim (s.delegation_reply ref) [
  | none ↦ (AttachmentState.blocked, (false, none))
  | some r ↦ reply_state mission r
]

-- A delegation is reported as succeeded only when its evidence verifies.
reply_verified :
    (mission : String) (r : DelegationReply)
    → (not (same_attachment_state (reply_state mission r).0 AttachmentState.succeeded)
        || (reply_state mission r).1.0)
      ≡ true
unfolding reply_state
reply_verified mission r = ground arith

pub delegation_verified :
    (s : Stores) (mission ref : String)
    → (not (same_attachment_state (delegation_state s mission ref).0 AttachmentState.succeeded)
        || (delegation_state s mission ref).1.0)
      ≡ true
unfolding delegation_state
delegation_verified s mission ref = elim (Option-cases (s.delegation_reply ref)) [
  | inl no_reply ↦ rw (no_reply, delegation_state) refl
  | inr (r, reply) ↦ rw (reply, delegation_state) (reply_verified mission r)
]
