-- ===== src/Delegations/Final/Dispatches.antt =====
-- No step of a dispatch undoes a completed cancellation.
use hermes_gpt.Prelude.{String, true, List, ◌≡◌, refl, inl, inr, arith, Bool-cases, Option-cases}
use hermes_gpt.Prelude.Rows.{select, update}
use hermes_gpt.Delegations.{Row, invoked_key, one_changed}
use hermes_gpt.Delegations.Dispatch
use hermes_gpt.Delegations.Final.{final, final-update, final-append}

invoked_final :
    (q : Dispatch.Request) (f : Row → Row) (rows : List Row) (d : String)
    → ((r : Row) → (f r).delegation_id ≡ r.delegation_id)
    → final rows d ≡ true
    → final (update (invoked_key q.delegation_id) f rows) d ≡ true
invoked_final q f rows d same =
    final-update (invoked_key q.delegation_id) f rows d same
      (λ r read fin key. absurd (ground (arith, fin, key)))

pub dispatch_step_final :
    (q : Dispatch.Request) (i : Dispatch.Input) (rows : List Row) (p : Dispatch.Place) (d : String)
    → final rows d ≡ true
    → final (Dispatch.dispatch_step q i rows p).0 d ≡ true
unfolding Dispatch.dispatch_step Dispatch.reserve Dispatch.claim Dispatch.release_claim
    Dispatch.reject Dispatch.record_dispatch Dispatch.mark_ambiguous
dispatch_step_final q i rows Dispatch.reserving d h =
    elim (Option-cases (select (Dispatch.collides q) rows)) [
      | inl e ↦ rw (e) (final-append d (Dispatch.new_row q i.now) rows h)
      | inr (r, e) ↦ rw (e) h
    ]
dispatch_step_final q i rows Dispatch.attaching d h = h
dispatch_step_final q i rows Dispatch.claiming d h =
    elim (Bool-cases (one_changed (Dispatch.claim_key q.delegation_id) rows)) [
      | inl e ↦ rw (e) (
          final-update (Dispatch.claim_key q.delegation_id) (Dispatch.claimed i.now) rows d
            (λ r. refl) (λ r read fin key. absurd (ground (arith, fin, key))) h)
      | inr e ↦ rw (e) h
    ]
dispatch_step_final q i rows Dispatch.guarding d h = h
dispatch_step_final q i rows Dispatch.releasing d h =
    final-update (Dispatch.phase_key q.delegation_id) (Dispatch.released i.now) rows d (λ r. refl)
      (λ r read fin key. absurd (ground (arith, fin, key))) h
dispatch_step_final q i rows Dispatch.calling d h = h
dispatch_step_final q i rows Dispatch.rejecting d h = elim (Bool-cases i.raises) [
  | inl e ↦ rw (e) h
  | inr e ↦ rw (e) (invoked_final q (Dispatch.released i.now) rows d (λ r. refl) h)
]
dispatch_step_final q i rows Dispatch.marking d h = elim (Bool-cases i.raises) [
  | inl e ↦ rw (e) h
  | inr e ↦ rw (e) (invoked_final q (Dispatch.marked i.now) rows d (λ r. refl) h)
]
dispatch_step_final q i rows (Dispatch.recording ambiguous s) d h = elim (Bool-cases i.raises) [
  | inl e ↦ rw (e) h
  | inr e ↦ rw (e) (invoked_final q (Dispatch.recorded i ambiguous s) rows d (λ r. refl) h)
]
dispatch_step_final q i rows (Dispatch.done r) d h = h
