-- ===== src/Delegations/Phases/Cancelled.antt =====
-- No step of a cancellation makes a delegation claimable.
use mathlib.Core.Path.{subst}
use hermes_gpt.Prelude.{
  String, Bool, true, not, Option, none, some, List, ◌≡◌, refl, sym, inl, inr, arith, ◌==◌, ◌&&◌,
  Bool-cases, if◌then◌else◌,
}
use hermes_gpt.Prelude.Rows.{select}
use hermes_gpt.Delegations.{reserved, cancelled, same_phase, is_terminal, Row, id_key, one_changed}
use hermes_gpt.Delegations.Cancel
use hermes_gpt.Delegations.Phases.{Closes, Closes-refl, update-Closes, read_row}

module _ (q : Cancel.Request) (i : Cancel.Input) where
  cancel_reserved-Closes :
      (rows : List Row) → Closes rows (Cancel.cancel_reserved q.delegation_id i.now rows).0
  unfolding Cancel.cancel_reserved
  cancel_reserved-Closes rows = update-Closes _ _ rows (λ r. refl) (λ d r found key h. absurd cc)

  claim_row-Closes : (r : Row) (rows : List Row) → Closes rows (Cancel.claim_row q i r rows).0
  claim_row-Closes r rows = elim (Bool-cases (is_terminal r.state)) [
    | inl e ↦ rw (e) (Closes-refl rows)
    | inr e ↦ elim (Bool-cases (not (r.mission_id == "") && not i.mission_open)) [
      | inl e' ↦ rw (e, e') (Closes-refl rows)
      | inr e' ↦ elim (Bool-cases (one_changed (Cancel.cancellable_key q.delegation_id) rows)) [
        | inl one ↦ rw (e, e', one) (update-Closes _ _ rows (λ r'. refl) (λ d r' found key h. h))
        | inr lost ↦ rw (e, e', lost) (Closes-refl rows)
      ]
    ]
  ]

  claim-Closes :
      (rows : List Row) (found : Option Row) → Closes rows (Cancel.claim_found q i rows found).0
  claim-Closes rows none = Closes-refl rows
  claim-Closes rows (some r) = claim_row-Closes r rows

  mark-Closes :
      (stored : Row) (prior : Bool) (rows : List Row) (found : Option Row)
      → Closes rows (Cancel.mark_found q.delegation_id i stored prior rows found).0
  mark-Closes stored prior rows none = Closes-refl rows
  mark-Closes stored prior rows (some r) =
      elim (Bool-cases (one_changed (Cancel.marking_key q.delegation_id stored) rows)) [
        | inl one ↦ rw (one) (update-Closes _ _ rows (λ r'. refl) (λ d r' found key h. h))
        | inr lost ↦ rw (lost) (Closes-refl rows)
      ]

  return-Closes :
      (stored : Row) (prior : Bool) (rows : List Row) (found : Option Row)
      → Closes rows (Cancel.return_found q.delegation_id i.now stored prior rows found).0
  return-Closes stored prior rows none = Closes-refl rows
  return-Closes stored prior rows (some r) = elim (Bool-cases (Cancel.same_authority r stored)) [
    | inl e ↦ rw (e) (update-Closes _ _ rows (λ r'. refl) (λ d r' found key h. h))
    | inr e ↦ rw (e) (Closes-refl rows)
  ]

  finished_phase :
      (r stored : Row) (s : String)
      → Cancel.same_authority r stored ≡ true
      → same_phase
          (if Cancel.is_confirmed i.texts s then cancelled else stored.dispatch_phase)
          reserved
        ≡ true
      → same_phase r.dispatch_phase reserved ≡ true
  finished_phase r stored s same h = elim (Bool-cases (Cancel.is_confirmed i.texts s)) [
    | inl e ↦ absurd (ground (arith, rw (e) at h))
    | inr e ↦ ground (arith, rw (e) at h, same)
  ]

  finish-Closes :
      (stored : Row) (s : String) (rows : List Row) (found : Option Row)
      → select (id_key q.delegation_id) rows ≡ found
      → Closes rows (Cancel.finish_found q.delegation_id i stored s rows found).0
  finish-Closes stored s rows none read = Closes-refl rows
  finish-Closes stored s rows (some r) read = elim (Bool-cases (Cancel.same_authority r stored)) [
    | inl same ↦ rw (same) (
        update-Closes (id_key q.delegation_id) (Cancel.finished i stored s) rows (λ r'. refl)
          (λ d r' found key h.
            subst (λ x. same_phase x.dispatch_phase reserved ≡ true)
              (sym (read_row rows q.delegation_id d r r' read found key))
              (finished_phase r stored s same h)))
    | inr moved ↦ elim (Bool-cases (Cancel.can_promote (Cancel.is_confirmed i.texts s) r stored)) [
      | inl may ↦
          rw (moved, may)
            (update-Closes (id_key q.delegation_id) (Cancel.promoted i s) rows (λ r'. refl)
              (λ d r' found key h. absurd cc))
      | inr lost ↦ rw (moved, lost) (Closes-refl rows)
    ]
  ]

  pub cancel_step-Closes :
      (rows : List Row) (p : Cancel.Place) → Closes rows (Cancel.cancel_step q i rows p).0
  unfolding Cancel.cancel_step Cancel.claim Cancel.mark Cancel.return_latch Cancel.finish
  cancel_step-Closes rows Cancel.reading = Closes-refl rows
  cancel_step-Closes rows Cancel.cancelling_reserved = cancel_reserved-Closes rows
  cancel_step-Closes rows Cancel.claiming = claim-Closes rows (select (id_key q.delegation_id) rows)
  cancel_step-Closes rows (Cancel.rereading prior) = Closes-refl rows
  cancel_step-Closes rows (Cancel.marking stored prior) =
      mark-Closes stored prior rows (select (id_key q.delegation_id) rows)
  cancel_step-Closes rows (Cancel.calling stored prior) = Closes-refl rows
  cancel_step-Closes rows (Cancel.returning stored prior) =
      return-Closes stored prior rows (select (id_key q.delegation_id) rows)
  cancel_step-Closes rows (Cancel.finishing stored s) =
      finish-Closes stored s rows (select (id_key q.delegation_id) rows) refl
  cancel_step-Closes rows (Cancel.done r) = Closes-refl rows
