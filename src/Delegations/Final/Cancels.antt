-- ===== src/Delegations/Final/Cancels.antt =====
-- No step of a cancellation that has latched its row undoes a completed one.
use mathlib.Core.Path.{subst}
use hermes_gpt.Prelude.{
  ℕ, String, Bool, true, not, Option, none, some, List, ◌≡◌, refl, inl, inr, arith, ◌==◌, ◌&&◌,
  Bool-cases,
}
use hermes_gpt.Prelude.Rows.{select}
use hermes_gpt.Delegations.{is_terminal, Row, id_key, one_changed}
use hermes_gpt.Delegations.Cancel
use hermes_gpt.Delegations.Phases.{read_row}
use hermes_gpt.Delegations.Final.{is_final, final, final-update}

-- A call of a cancellation that has set its watermark holds a row whose cancellation is in progress.
abbrev pub Latched : Cancel.Place → Type 0
Latched (Cancel.calling stored prior) = stored.cancellation_in_progress ≡ true
Latched (Cancel.returning stored prior) = stored.cancellation_in_progress ≡ true
Latched (Cancel.finishing stored s) = stored.cancellation_in_progress ≡ true
Latched _ = Unit

claim_row_final :
    (q : Cancel.Request) (i : Cancel.Input) (r : Row) (rows : List Row) (d : String)
    → final rows d ≡ true
    → final (Cancel.claim_row q i r rows).0 d ≡ true
claim_row_final q i r rows d h = elim (Bool-cases (is_terminal r.state)) [
  | inl e ↦ rw (e) h
  | inr e ↦ elim (Bool-cases (not (r.mission_id == "") && not i.mission_open)) [
    | inl e' ↦ rw (e, e') h
    | inr e' ↦ elim (Bool-cases (one_changed (Cancel.cancellable_key q.delegation_id) rows)) [
      | inl one ↦
          rw (e, e', one)
            (final-update (Cancel.cancellable_key q.delegation_id) (Cancel.claimed i.now) rows d
              (λ x. refl) (λ x read fin key. absurd (ground (arith, fin, key))) h)
      | inr lost ↦ rw (e, e', lost) h
    ]
  ]
]

-- The row that equals one whose cancellation is in progress is not final.
moved_on :
    (rows : List Row) (d d' : String) (r r' stored : Row)
    → select (id_key d) rows ≡ some r
    → select (id_key d') rows ≡ some r'
    → id_key d r' ≡ true
    → Cancel.same_authority r stored ≡ true
    → stored.cancellation_in_progress ≡ true
    → is_final r' ≡ true
    → ⊥
moved_on rows d d' r r' stored read read' key same latched fin = ground (
  arith,
  subst (λ x. is_final x ≡ true) (read_row rows d d' r r' read read' key) fin,
  same,
  latched,
)

finish_final :
    (q : String) (i : Cancel.Input) (stored : Row) (s : String) (rows : List Row)
    (found : Option Row) (d : String)
    → select (id_key q) rows ≡ found
    → stored.cancellation_in_progress ≡ true
    → final rows d ≡ true
    → final (Cancel.finish_found q i stored s rows found).0 d ≡ true
finish_final q i stored s rows none d read latched h = h
finish_final q i stored s rows (some r) d read latched h =
    elim (Bool-cases (Cancel.same_authority r stored)) [
      | inl same ↦ rw (same) (
          final-update (id_key q) (Cancel.finished i stored s) rows d (λ x. refl)
            (λ r' read' fin key.
              absurd (moved_on rows q d r r' stored read read' key same latched fin))
            h)
      | inr moved ↦
          elim (Bool-cases (Cancel.can_promote (Cancel.is_confirmed i.texts s) r stored)) [
            | inl may ↦
                rw (moved, may)
                  (final-update (id_key q) (Cancel.promoted i s) rows d (λ x. refl)
                    (λ r' read' fin key. refl) h)
            | inr lost ↦ rw (moved, lost) h
          ]
    ]

return_final :
    (q : String) (now : ℕ) (stored : Row) (prior : Bool) (rows : List Row) (found : Option Row)
    (d : String)
    → select (id_key q) rows ≡ found
    → stored.cancellation_in_progress ≡ true
    → final rows d ≡ true
    → final (Cancel.return_found q now stored prior rows found).0 d ≡ true
return_final q now stored prior rows none d read latched h = h
return_final q now stored prior rows (some r) d read latched h =
    elim (Bool-cases (Cancel.same_authority r stored)) [
      | inl same ↦ rw (same) (
          final-update (id_key q) (Cancel.returned prior now) rows d (λ x. refl)
            (λ r' read' fin key.
              absurd (moved_on rows q d r r' stored read read' key same latched fin))
            h)
      | inr moved ↦ rw (moved) h
    ]

mark_final :
    (q : String) (i : Cancel.Input) (stored : Row) (prior : Bool) (rows : List Row)
    (found : Option Row) (d : String)
    → final rows d ≡ true
    → final (Cancel.mark_found q i stored prior rows found).0 d ≡ true
mark_final q i stored prior rows none d h = h
mark_final q i stored prior rows (some r) d h =
    elim (Bool-cases (one_changed (Cancel.marking_key q stored) rows)) [
      | inl one ↦ rw (one) (
          final-update (Cancel.marking_key q stored) (Cancel.marked i) rows d (λ x. refl)
            (λ r' read' fin key. absurd (ground (arith, fin, key))) h)
      | inr lost ↦ rw (lost) h
    ]

claim_final :
    (q : Cancel.Request) (i : Cancel.Input) (rows : List Row) (found : Option Row) (d : String)
    → final rows d ≡ true
    → final (Cancel.claim_found q i rows found).0 d ≡ true
claim_final q i rows none d h = h
claim_final q i rows (some r) d h = claim_row_final q i r rows d h

pub cancel_step_final :
    (q : Cancel.Request) (i : Cancel.Input) (rows : List Row) (p : Cancel.Place) (d : String)
    → Latched p
    → final rows d ≡ true
    → final (Cancel.cancel_step q i rows p).0 d ≡ true
unfolding Cancel.cancel_step Cancel.cancel_reserved Cancel.claim Cancel.mark Cancel.return_latch
    Cancel.finish
cancel_step_final q i rows Cancel.reading d l h = h
cancel_step_final q i rows Cancel.cancelling_reserved d l h =
    final-update (Cancel.reserved_key q.delegation_id) (Cancel.cancelled_reserved i.now) rows d
      (λ x. refl) (λ r read fin key. refl) h
cancel_step_final q i rows Cancel.claiming d l h =
    claim_final q i rows (select (id_key q.delegation_id) rows) d h
cancel_step_final q i rows (Cancel.rereading prior) d l h = h
cancel_step_final q i rows (Cancel.marking stored prior) d l h =
    mark_final q.delegation_id i stored prior rows (select (id_key q.delegation_id) rows) d h
cancel_step_final q i rows (Cancel.calling stored prior) d l h = h
cancel_step_final q i rows (Cancel.returning stored prior) d l h =
    return_final q.delegation_id i.now stored prior rows (select (id_key q.delegation_id) rows) d
      refl l h
cancel_step_final q i rows (Cancel.finishing stored s) d l h =
    finish_final q.delegation_id i stored s rows (select (id_key q.delegation_id) rows) d refl l h
cancel_step_final q i rows (Cancel.done r) d l h = h
