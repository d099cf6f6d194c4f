-- ===== src/Mission/Observe/Justified.antt =====
-- When an observation justifies the status completed.
use hermes_gpt.Prelude.{
  ℕ, suc, String, Bool, true, false, Option, List, [], ◌∷◌, ◌&&◌, ◌||◌, not, any, all, ◌≡◌, refl,
  inl, inr, arith, Bool-cases,
}
use hermes_gpt.Mission.Stores.{Stores, delegation_verified}
use hermes_gpt.Mission.Defs.{
  Status, is_terminal_status, AttachmentState, same_attachment_state, MissionRow, Attachment,
  same_kind, workflow, delegation,
}
use hermes_gpt.Mission.Observe.{
  Observed, observe, observe_from, observe_attachments, desired_mission_status, has_state, is_done,
  approvable, by_ref,
}

-- A terminal status is never left by an observation.
pub desired_terminal :
    (m : MissionRow) (items : List Observed)
    → is_terminal_status m.status ≡ true
    → desired_mission_status m items ≡ m.status
unfolding desired_mission_status
desired_terminal m items h = rw h refl

-- The ground of a completion: every child has ended well or was cancelled, one has succeeded, and
-- a required approval is there.
pub record Justified (m : MissionRow) (items : List Observed) : Type 0 where
  pub done : all (λ i. is_done i.state) items ≡ true
  pub success : has_state AttachmentState.succeeded items ≡ true
  pub approval : m.final_approval_required ≡ true → m.approved ≡ true

pub desired_completed :
    (m : MissionRow) (items : List Observed)
    → is_terminal_status m.status ≡ false
    → desired_mission_status m items ≡ Status.completed
    → Justified m items
unfolding desired_mission_status is_terminal_status
desired_completed m items active h = record {
  done = ground arith;
  success = ground arith;
  approval = λ required. ground arith;
}

-- A success that an observation reports is verified.
abbrev verified_success : Observed → Bool
verified_success i = not (same_attachment_state i.state AttachmentState.succeeded) || i.verified

observe_verified :
    (s : Stores) (m : String) (a : Attachment) → verified_success (observe s m a) ≡ true
unfolding observe
observe_verified s m a = elim (Bool-cases (same_kind a.kind workflow)) [
  | inl w ↦ rw w (ground arith)
  | inr other ↦ elim (Bool-cases (same_kind a.kind delegation)) [
    | inl d ↦ rw (other, d) (delegation_verified s m a.ref)
    | inr rest ↦ rw (other, rest) (ground arith)
  ]
]

observe_from_verified :
    (stores : ℕ → Stores) (k : ℕ) (m : String) (find : String → Option Attachment)
    (rows : List Attachment)
    → all verified_success (observe_from stores k m find rows) ≡ true
unfolding observe_from
observe_from_verified stores k m find [] = refl
observe_from_verified stores k m find (a ∷ rows) = ground (
  arith,
  observe_verified (stores (suc k)) m a,
  observe_from_verified stores (suc (suc k)) m find rows,
)

all_done :
    (items : List Observed)
    → all (λ i. is_done i.state) items ≡ true
    → all verified_success items ≡ true
    → all (λ i. is_done i.state && verified_success i) items ≡ true
all_done [] h v = refl
all_done (i ∷ items) h v = ground (arith, all_done items (ground arith) (ground arith))

any_verified :
    (items : List Observed)
    → has_state AttachmentState.succeeded items ≡ true
    → all verified_success items ≡ true
    → any (λ i. same_attachment_state i.state AttachmentState.succeeded && i.verified) items ≡ true
any_verified [] h v = absurd cc
any_verified (i ∷ items) h v =
    elim (Bool-cases (same_attachment_state i.state AttachmentState.succeeded)) [
      | inl success ↦ ground arith
      | inr other ↦ ground (arith, any_verified items (ground arith) (ground arith))
    ]

pub Justified-approvable :
    (r : MissionRow) (stores : ℕ → Stores) (m : String) (rows : List Attachment)
    → Justified r (observe_attachments stores m rows)
    → approvable (observe_attachments stores m rows) ≡ true
unfolding approvable observe_attachments
Justified-approvable r stores m rows j =
    let items : List Observed = observe_attachments stores m rows in
    let verified : all verified_success items ≡ true =
      observe_from_verified stores 0 m (by_ref rows) rows in
    ground (arith, all_done items j.done verified, any_verified items j.success verified)
