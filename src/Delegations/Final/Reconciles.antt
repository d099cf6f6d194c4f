-- ===== src/Delegations/Final/Reconciles.antt =====
-- No step of a reconciliation undoes a completed cancellation.
use mathlib.Core.Path.{subst}
use hermes_gpt.Prelude.{
  String, Bool, true, false, not, Option, none, some, List, ◌≡◌, refl, inl, inr, arith, ◌&&◌,
  Bool-cases,
}
use hermes_gpt.Prelude.Rows.{select}
use hermes_gpt.Delegations.{State, Phase, same_state, same_phase, Row, id_key}
use hermes_gpt.Delegations.Reconcile
use hermes_gpt.Delegations.Phases.{read_row}
use hermes_gpt.Delegations.Final.{is_final, final, final-update}

stored_final :
    (r stored : Row)
    → Reconcile.same_authority r stored ≡ true
    → is_final r ≡ true
    → Reconcile.is_authoritative stored ≡ true
stored_final r stored same fin = ground (arith, same, fin)

abbrev ends : Reconcile.Resolution → Bool
ends z =
    (same_state z.desired State.cancelled && z.cancel_requested)
    && (same_phase z.dispatch_phase Phase.cancelled && not z.cancellation_in_progress)

no_defect :
    (i : Reconcile.Input) (stored : Row) (s : State)
    → Reconcile.is_authoritative stored ≡ true
    → Reconcile.is_defect i stored s ≡ false
no_defect i stored s h = ground (arith, h)

resolve_state-ends :
    (i : Reconcile.Input) (stored : Row) (s : State)
    → Reconcile.is_authoritative stored ≡ true
    → ends (Reconcile.resolve_state i stored s) ≡ true
unfolding Reconcile.resolve_state
resolve_state-ends i stored s h = rw (h) (ground (arith, h))

resolve-ends :
    (i : Reconcile.Input) (stored : Row)
    → Reconcile.is_authoritative stored ≡ true
    → ends (Reconcile.resolve i stored) ≡ true
unfolding Reconcile.resolve
resolve-ends i stored h =
    let s = Reconcile.observed_state i.texts stored i.observed in
    rw (no_defect i stored s h) (resolve_state-ends i stored s h)

write_final :
    (q : Reconcile.Request) (i : Reconcile.Input) (stored : Row) (rows : List Row)
    (found : Option Row) (d : String)
    → select (id_key q.delegation_id) rows ≡ found
    → final rows d ≡ true
    → final (Reconcile.write_found q i stored rows found).0 d ≡ true
write_final q i stored rows none d read h = h
write_final q i stored rows (some r) d read h =
    elim (Bool-cases (Reconcile.same_authority r stored)) [
      | inl same ↦ rw (same) (
          final-update (id_key q.delegation_id)
            (Reconcile.reconciled i stored (Reconcile.resolve i stored)) rows d (λ x. refl)
            (λ r' read' fin key. resolve-ends i stored (
              stored_final r stored same (
                subst (λ x. is_final x ≡ true) (read_row rows q.delegation_id d r r' read read' key)
                  fin)))
            h)
      | inr stale ↦ rw (stale) h
    ]

pub reconcile_step_final :
    (q : Reconcile.Request) (i : Reconcile.Input) (rows : List Row) (p : Reconcile.Place)
    (d : String)
    → final rows d ≡ true
    → final (Reconcile.reconcile_step q i rows p).0 d ≡ true
unfolding Reconcile.reconcile_step Reconcile.write
reconcile_step_final q i rows Reconcile.reading d h = h
reconcile_step_final q i rows (Reconcile.writing stored) d h = elim (Bool-cases q.apply) [
  | inl on ↦ rw (on) (write_final q i stored rows (select (id_key q.delegation_id) rows) d refl h)
  | inr off ↦ rw (off) h
]
reconcile_step_final q i rows (Reconcile.done r) d h = h
