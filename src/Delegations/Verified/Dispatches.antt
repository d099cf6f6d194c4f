-- ===== src/Delegations/Verified/Dispatches.antt =====
-- Dispatches make no success.
use hermes_gpt.Prelude.{
  String, Bool, true, false, not, List, ◌≡◌, refl, sym, ◌∙◌, inl, inr, ◌==◌, ◌&&◌, Bool-cases,
  Option-cases, if◌then◌else◌,
}
use hermes_gpt.Prelude.Rows.{select}
use hermes_gpt.Delegations.{
  State, succeeded, reconciling, queued, same_state, Row, one_changed, normalize_state,
}
use hermes_gpt.Delegations.Dispatch
use hermes_gpt.Delegations.Verified.{AllProved, update-AllProved, append-AllProved, true_not_false}

either_unproved :
    (b : Bool) (s t : State)
    → same_state s succeeded ≡ false
    → same_state t succeeded ≡ false
    → same_state (if b then s else t) succeeded ≡ false
either_unproved true s t hs ht = hs
either_unproved false s t hs ht = ht

recorded_unproved :
    (ambiguous : Bool) (s : State) (text : String)
    → same_state (Dispatch.recorded_state ambiguous s text) succeeded ≡ false
recorded_unproved true s text =
    elim (Bool-cases (same_state reconciling reconciling && (not true && text == ""))) [
      | inl e ↦ refl
      | inr e ↦ refl
    ]
recorded_unproved false s text = elim (Bool-cases (same_state s succeeded)) [
  | inl e ↦ rw (e) (either_unproved (text == "") queued reconciling refl refl)
  | inr e ↦
      rw (e)
        (either_unproved (same_state s reconciling && (not false && text == "")) queued s refl e)
]

pub dispatch_step-AllProved :
    (q : Dispatch.Request) (i : Dispatch.Input) (rows : List Row) (p : Dispatch.Place)
    → AllProved rows
    → AllProved (Dispatch.dispatch_step q i rows p).0
unfolding Dispatch.dispatch_step Dispatch.reserve Dispatch.claim Dispatch.release_claim
    Dispatch.reject Dispatch.record_dispatch Dispatch.mark_ambiguous
dispatch_step-AllProved q i rows Dispatch.reserving h =
    elim (Option-cases (select (Dispatch.collides q) rows)) [
      | inl e ↦ rw (e) (append-AllProved (Dispatch.new_row q i.now) rows (λ won. absurd cc) h)
      | inr (r, e) ↦ rw (e) h
    ]
dispatch_step-AllProved q i rows Dispatch.attaching h = h
dispatch_step-AllProved q i rows Dispatch.claiming h =
    elim (Bool-cases (one_changed (Dispatch.claim_key q.delegation_id) rows)) [
      | inl e ↦ rw (e) (update-AllProved _ _ rows (λ r won. won) h)
      | inr e ↦ rw (e) h
    ]
dispatch_step-AllProved q i rows Dispatch.guarding h = h
dispatch_step-AllProved q i rows Dispatch.releasing h = update-AllProved _ _ rows (λ r won. won) h
dispatch_step-AllProved q i rows Dispatch.calling h = h
dispatch_step-AllProved q i rows Dispatch.rejecting h = elim (Bool-cases i.raises) [
  | inl e ↦ rw (e) h
  | inr e ↦ rw (e) (update-AllProved _ _ rows (λ r won. won) h)
]
dispatch_step-AllProved q i rows Dispatch.marking h = elim (Bool-cases i.raises) [
  | inl e ↦ rw (e) h
  | inr e ↦ rw (e) (update-AllProved _ _ rows (λ r won. λ wins. absurd cc) h)
]
dispatch_step-AllProved q i rows (Dispatch.recording ambiguous s) h = elim (Bool-cases i.raises) [
  | inl e ↦ rw (e) h
  | inr e ↦ rw (e) (
      update-AllProved _ (Dispatch.recorded i ambiguous s) rows
        (λ r won wins. absurd (
          true_not_false
            (sym wins ∙ recorded_unproved ambiguous (normalize_state (i.texts.normal s)) s)))
        h)
]
dispatch_step-AllProved q i rows (Dispatch.done r) h = h
