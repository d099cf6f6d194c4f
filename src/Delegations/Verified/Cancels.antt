-- ===== src/Delegations/Verified/Cancels.antt =====
-- Cancellations make no success.
use hermes_gpt.Prelude.{
  ℕ, String, Bool, true, false, not, Option, none, some, List, ◌≡◌, refl, sym, ◌∙◌, inl, inr, ◌==◌,
  ◌&&◌, Bool-cases, if◌then◌else◌,
}
use hermes_gpt.Prelude.Rows.{select}
use hermes_gpt.Delegations.{
  succeeded, cancelled, reconciling, same_state, is_terminal, Row, id_key, one_changed,
}
use hermes_gpt.Delegations.Cancel
use hermes_gpt.Delegations.Verified.{AllProved, update-AllProved, true_not_false}

finished_unproved :
    (confirmed : Bool) → same_state (if confirmed then cancelled else reconciling) succeeded ≡ false
finished_unproved true = refl
finished_unproved false = refl

finish-AllProved :
    (d : String) (i : Cancel.Input) (stored : Row) (s : String) (rows : List Row)
    (found : Option Row)
    → AllProved rows
    → AllProved (Cancel.finish_found d i stored s rows found).0
finish-AllProved d i stored s rows none h = h
finish-AllProved d i stored s rows (some r) h = elim (Bool-cases (Cancel.same_authority r stored)) [
  | inl e ↦ rw (e) (
      update-AllProved _ (Cancel.finished i stored s) rows
        (λ x won wins.
          absurd (true_not_false (sym wins ∙ finished_unproved (Cancel.is_confirmed i.texts s))))
        h)
  | inr e ↦ elim (Bool-cases (Cancel.can_promote (Cancel.is_confirmed i.texts s) r stored)) [
    | inl e' ↦ rw (e, e') (update-AllProved _ _ rows (λ x won wins. absurd cc) h)
    | inr e' ↦ rw (e, e') h
  ]
]

return-AllProved :
    (d : String) (now : ℕ) (stored : Row) (prior : Bool) (rows : List Row) (found : Option Row)
    → AllProved rows
    → AllProved (Cancel.return_found d now stored prior rows found).0
return-AllProved d now stored prior rows none h = h
return-AllProved d now stored prior rows (some r) h =
    elim (Bool-cases (Cancel.same_authority r stored)) [
      | inl e ↦ rw (e) (update-AllProved _ _ rows (λ x won. won) h)
      | inr e ↦ rw (e) h
    ]

mark-AllProved :
    (d : String) (i : Cancel.Input) (stored : Row) (prior : Bool) (rows : List Row)
    (found : Option Row)
    → AllProved rows
    → AllProved (Cancel.mark_found d i stored prior rows found).0
mark-AllProved d i stored prior rows none h = h
mark-AllProved d i stored prior rows (some r) h =
    elim (Bool-cases (one_changed (Cancel.marking_key d stored) rows)) [
      | inl e ↦ rw (e) (update-AllProved _ _ rows (λ x won. won) h)
      | inr e ↦ rw (e) h
    ]

claim_row-AllProved :
    (q : Cancel.Request) (i : Cancel.Input) (r : Row) (rows : List Row)
    → AllProved rows
    → AllProved (Cancel.claim_row q i r rows).0
claim_row-AllProved q i r rows h = elim (Bool-cases (is_terminal r.state)) [
  | inl e ↦ rw (e) h
  | inr e ↦ elim (Bool-cases (not (r.mission_id == "") && not i.mission_open)) [
    | inl e' ↦ rw (e, e') h
    | inr e' ↦ elim (Bool-cases (one_changed (Cancel.cancellable_key q.delegation_id) rows)) [
      | inl one ↦ rw (e, e', one) (update-AllProved _ _ rows (λ x won. won) h)
      | inr lost ↦ rw (e, e', lost) h
    ]
  ]
]

claim-AllProved :
    (q : Cancel.Request) (i : Cancel.Input) (rows : List Row) (found : Option Row)
    → AllProved rows
    → AllProved (Cancel.claim_found q i rows found).0
claim-AllProved q i rows none h = h
claim-AllProved q i rows (some r) h = claim_row-AllProved q i r rows h

pub cancel_step-AllProved :
    (q : Cancel.Request) (i : Cancel.Input) (rows : List Row) (p : Cancel.Place)
    → AllProved rows
    → AllProved (Cancel.cancel_step q i rows p).0
unfolding Cancel.cancel_step Cancel.cancel_reserved Cancel.claim Cancel.mark Cancel.return_latch
    Cancel.finish
cancel_step-AllProved q i rows Cancel.reading h = h
cancel_step-AllProved q i rows Cancel.cancelling_reserved h =
    update-AllProved _ _ rows (λ r won wins. absurd cc) h
cancel_step-AllProved q i rows Cancel.claiming h =
    claim-AllProved q i rows (select (id_key q.delegation_id) rows) h
cancel_step-AllProved q i rows (Cancel.rereading prior) h = h
cancel_step-AllProved q i rows (Cancel.marking stored prior) h =
    mark-AllProved q.delegation_id i stored prior rows (select (id_key q.delegation_id) rows) h
cancel_step-AllProved q i rows (Cancel.calling stored prior) h = h
cancel_step-AllProved q i rows (Cancel.returning stored prior) h =
    return-AllProved q.delegation_id i.now stored prior rows (select (id_key q.delegation_id) rows)
      h
cancel_step-AllProved q i rows (Cancel.finishing stored s) h =
    finish-AllProved q.delegation_id i stored s rows (select (id_key q.delegation_id) rows) h
cancel_step-AllProved q i rows (Cancel.done r) h = h
