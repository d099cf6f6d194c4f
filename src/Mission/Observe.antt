-- ===== src/Mission/Observe.antt =====
-- operator_mission_runtime.py: what the stores say of the attachments now, and the status that
-- follows. The stores are read again for every attachment and may change between two reads:
-- `stores k` is what the k-th read finds.
pub mod Successor
pub mod Justified
use hermes_gpt.Prelude.{
  ℕ, zero, suc, ◌+◌, String, Bool, true, false, Option, none, some, List, [], ◌∷◌, ◌==◌, ◌&&◌, ◌||◌,
  not, any, all, eqb, length, if◌then◌else◌,
}
use hermes_gpt.Prelude.Result.{Result, ok, err, value_error}
use hermes_gpt.Prelude.Rows.{select}
use hermes_gpt.Prelude.Names.{contains}
use hermes_gpt.Mission.Stores.{Stores, workflow_state, delegation_state}
use hermes_gpt.Mission.Defs.{
  Status, same_status, is_terminal_status, AttachmentKind, same_kind, workflow, delegation,
  AttachmentState, same_attachment_state, Relationship, superseded_by, plain, MissionRow,
  Attachment,
}

-- An item of the observation.
pub record Observed : Type 0 where
  pub kind : AttachmentKind
  pub ref : String
  pub state : AttachmentState
  pub verified : Bool
  pub authority_version : Option ℕ

max_supersede_chain : ℕ
max_supersede_chain = 16

-- `by_ref.get(ref)`: the delegation attachments by their reference
abbrev pub by_ref : List Attachment → String → Option Attachment
by_ref rows ref = select (λ a. same_kind a.kind delegation && a.ref == ref) rows

-- The loop of _resolve_successor, on its own bound.
unfoldable pub follow : (String → Option Attachment) → ℕ → List String → String → Option String
follow find zero seen current = none
follow find (suc fuel) seen current = elim (find current) [
  | none ↦ none
  | some a ↦ if contains seen current then none else elim a.relationship [
    | plain _ ↦ some current
    | superseded_by next ↦ follow find fuel (current ∷ seen) next
  ]
]

-- _resolve_successor
unfoldable pub resolve_successor : (String → Option Attachment) → String → Option String
unfolding max_supersede_chain
resolve_successor find ref = follow find max_supersede_chain [] ref

-- `state in ("failed", "cancelled")`
abbrev pub has_ended_badly : AttachmentState → Bool
has_ended_badly s =
    same_attachment_state s AttachmentState.failed
    || same_attachment_state s AttachmentState.cancelled

-- the marker of a delegation attachment whose chain ends elsewhere
unfoldable pub is_marked : (String → Option Attachment) → Attachment → Bool
is_marked find a = elim a.relationship [
  | plain _ ↦ false
  | superseded_by _ ↦
      same_kind a.kind delegation
      && elim (resolve_successor find a.ref) [ none ↦ false | some end ↦ not (end == a.ref) ]
]

-- _is_verified_superseded
unfoldable pub is_verified_superseded :
    Stores → String → (String → Option Attachment) → Attachment → Bool
unfolding is_marked
is_verified_superseded s mission find a =
    is_marked find a && has_ended_badly (delegation_state s mission a.ref).0

observed_workflow : Stores → Attachment → Observed
observed_workflow s a = record {
  kind = a.kind;
  ref = a.ref;
  state = workflow_state s a.ref;
  verified = same_attachment_state (workflow_state s a.ref) AttachmentState.succeeded;
  authority_version = none;
}

observed_delegation : Stores → String → Attachment → Observed
observed_delegation s mission a =
    let (state, rest) = delegation_state s mission a.ref in
    record {
      kind = a.kind;
      ref = a.ref;
      state = state;
      verified = rest.0;
      authority_version = rest.1;
    }

observed_record : Attachment → Observed
observed_record a = record {
  kind = a.kind;
  ref = a.ref;
  state =
      if same_attachment_state a.state AttachmentState.succeeded && not a.verified
      then AttachmentState.blocked
      else a.state;
  verified = a.verified;
  authority_version = none;
}

-- one item of _observe_attachments
unfoldable pub observe : Stores → String → Attachment → Observed
unfolding observed_workflow observed_delegation observed_record
observe s mission a =
    if same_kind a.kind workflow
    then observed_workflow s a
    else if same_kind a.kind delegation
    then observed_delegation s mission a
    else observed_record a

-- the loop of _observe_attachments
unfoldable pub observe_from :
    (ℕ → Stores) → ℕ → String → (String → Option Attachment) → List Attachment → List Observed
observe_from stores k mission find [] = []
observe_from stores k mission find (a ∷ rows) =
    let rest = observe_from stores (suc (suc k)) mission find rows in
    if is_verified_superseded (stores k) mission find a
    then rest
    else observe (stores (suc k)) mission a ∷ rest

-- _observe_attachments
unfoldable pub observe_attachments : (ℕ → Stores) → String → List Attachment → List Observed
unfolding observe_from
observe_attachments stores mission rows = observe_from stores 0 mission (by_ref rows) rows

-- `state in states`
abbrev pub has_state : AttachmentState → List Observed → Bool
has_state s items = any (λ i. same_attachment_state i.state s) items

-- `state in {"succeeded", "cancelled"}`
abbrev pub is_done : AttachmentState → Bool
is_done s =
    same_attachment_state s AttachmentState.succeeded
    || same_attachment_state s AttachmentState.cancelled

-- _desired_mission_status
unfoldable pub desired_mission_status : MissionRow → List Observed → Status
desired_mission_status m items =
    if is_terminal_status m.status
    then m.status
    else if has_state AttachmentState.failed items
    then Status.failed
    else if has_state AttachmentState.blocked items || has_state AttachmentState.unknown items
    then Status.blocked
    else if has_state AttachmentState.running items || has_state AttachmentState.pending items
    then Status.running
    else if all (λ i. is_done i.state) items && has_state AttachmentState.succeeded items
    then (if m.final_approval_required && not m.approved
        then Status.awaiting_approval
        else Status.completed)
    else m.status

-- `invalid` and `succeeded` in the check of hermes_mission_approve
unfoldable pub approvable : List Observed → Bool
approvable items =
    all
      (λ i.
        is_done i.state
        && (not (same_attachment_state i.state AttachmentState.succeeded) || i.verified))
      items
    && any (λ i. same_attachment_state i.state AttachmentState.succeeded && i.verified) items

-- the delegation items and their authority versions
unfoldable pub snapshots : List Observed → Result (List (String × ℕ))
snapshots [] = ok []
snapshots (i ∷ items) =
    let rest = snapshots items in
    if same_kind i.kind delegation
    then elim i.authority_version [
      | none ↦ err value_error
      | some v ↦ elim rest [ err e ↦ err e | ok pairs ↦ ok ((i.ref, v) ∷ pairs) ]
    ]
    else rest
