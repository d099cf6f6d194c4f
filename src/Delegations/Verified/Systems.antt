-- ===== src/Delegations/Verified/Systems.antt =====
-- Every success of a system is verified.
use mathlib.Core.Path.{subst}
use hermes_gpt.Prelude.{
  ℕ, zero, suc, String, true, some, List, [], ◌∷◌, ◌≡◌, refl, sym, inl, inr, Bool-cases,
}
use hermes_gpt.Prelude.Rows.{select}
use hermes_gpt.Delegations.{
  succeeded, same_state, Verdict, satisfied, not_satisfied, inconclusive, invalid_contract, unknown,
  same_verdict, Row, id_key,
}
use hermes_gpt.Delegations.Dispatch
use hermes_gpt.Delegations.Cancel
use hermes_gpt.Delegations.Reconcile
use hermes_gpt.Delegations.Phases.{some_injective}
use hermes_gpt.Delegations.Run.{
  Dispatching, Cancelling, Reconciling, System, Event, dispatch_starts, cancel_starts,
  reconcile_starts, dispatch_runs, cancel_runs, reconcile_runs, run_dispatch, run_cancel,
  run_reconcile, happen, happens,
}
use hermes_gpt.Delegations.Verified.{IsProved, AllProved}
use hermes_gpt.Delegations.Verified.Dispatches.{dispatch_step-AllProved}
use hermes_gpt.Delegations.Verified.Cancels.{cancel_step-AllProved}
use hermes_gpt.Delegations.Verified.Reconciles.{reconcile_step-AllProved}

run_dispatch-AllProved :
    (n : ℕ) (i : Dispatch.Input) (rows : List Row) (ps : List Dispatching) (log : List String)
    → AllProved rows
    → AllProved (run_dispatch n i rows ps log).0
unfolding run_dispatch
run_dispatch-AllProved n i rows [] log h = h
run_dispatch-AllProved zero i rows (p ∷ ps) log h =
    dispatch_step-AllProved p.request i rows p.place h
run_dispatch-AllProved (suc n) i rows (p ∷ ps) log h = run_dispatch-AllProved n i rows ps log h

run_cancel-AllProved :
    (n : ℕ) (i : Cancel.Input) (rows : List Row) (ps : List Cancelling)
    → AllProved rows
    → AllProved (run_cancel n i rows ps).0
unfolding run_cancel
run_cancel-AllProved n i rows [] h = h
run_cancel-AllProved zero i rows (p ∷ ps) h = cancel_step-AllProved p.request i rows p.place h
run_cancel-AllProved (suc n) i rows (p ∷ ps) h = run_cancel-AllProved n i rows ps h

run_reconcile-AllProved :
    (n : ℕ) (i : Reconcile.Input) (rows : List Row) (ps : List Reconciling)
    → AllProved rows
    → AllProved (run_reconcile n i rows ps).0
unfolding run_reconcile
run_reconcile-AllProved n i rows [] h = h
run_reconcile-AllProved zero i rows (p ∷ ps) h = reconcile_step-AllProved p.request i rows p.place h
run_reconcile-AllProved (suc n) i rows (p ∷ ps) h = run_reconcile-AllProved n i rows ps h

happen-AllProved : (s : System) (e : Event) → AllProved s.rows → AllProved (happen s e).rows
unfolding happen
happen-AllProved s (dispatch_starts q) h = h
happen-AllProved s (cancel_starts q) h = h
happen-AllProved s (reconcile_starts q) h = h
happen-AllProved s (dispatch_runs n i) h =
    run_dispatch-AllProved n i s.rows s.dispatches s.submitted h
happen-AllProved s (cancel_runs n i) h = run_cancel-AllProved n i s.rows s.cancels h
happen-AllProved s (reconcile_runs n i) h = run_reconcile-AllProved n i s.rows s.reconciles h

happens-AllProved :
    (es : List Event) (s : System) → AllProved s.rows → AllProved (happens s es).rows
unfolding happens
happens-AllProved [] s h = h
happens-AllProved (e ∷ es) s h = happens-AllProved es (happen s e) (happen-AllProved s e h)

IsProved-row :
    (rows : List Row) (d : String) (r : Row)
    → AllProved rows
    → select (id_key d) rows ≡ some r
    → IsProved r
unfolding AllProved select
IsProved-row [] d r h read = absurd cc
IsProved-row (x ∷ rows) d r (hx, h) read = elim (Bool-cases (id_key d x)) [
  | inl e ↦ subst IsProved (some_injective (rw (e) at read)) hx
  | inr e ↦ IsProved-row rows d r h (rw (e) at read)
]

satisfied_of : (v : Verdict) → same_verdict v satisfied ≡ true → v ≡ satisfied
satisfied_of satisfied h = refl
satisfied_of not_satisfied h = absurd cc
satisfied_of inconclusive h = absurd cc
satisfied_of invalid_contract h = absurd cc
satisfied_of unknown h = absurd cc

-- Where every row that has succeeded has the verdict SATISFIED, so has every row that any steps of
-- dispatches, cancellations and reconciliations leave succeeded.
pub succeeded_verified :
    (es : List Event) (s : System) (d : String) (r : Row)
    → AllProved s.rows
    → select (id_key d) (happens s es).rows ≡ some r
    → r.state ≡ succeeded
    → r.validation_verdict ≡ satisfied
succeeded_verified es s d r h read won = satisfied_of r.validation_verdict (
    IsProved-row (happens s es).rows d r (happens-AllProved es s h) read
      (subst (λ x. same_state x succeeded ≡ true) (sym won) refl))
