-- ===== src/Delegations/Final/Systems.antt =====
-- A completed cancellation stays so in every system.
use hermes_gpt.Prelude.{ℕ, zero, suc, String, true, List, [], ◌∷◌, ◌≡◌}
use hermes_gpt.Delegations.{Row}
use hermes_gpt.Delegations.Dispatch
use hermes_gpt.Delegations.Cancel
use hermes_gpt.Delegations.Reconcile
use hermes_gpt.Delegations.Phases.{IsKeyed}
use hermes_gpt.Delegations.Once.Systems.{happen-IsKeyed}
use hermes_gpt.Delegations.Run.{
  Dispatching, Cancelling, Reconciling, System, Event, dispatch_starts, cancel_starts,
  reconcile_starts, dispatch_runs, cancel_runs, reconcile_runs, run_dispatch, run_cancel,
  run_reconcile, happen, happens,
}
use hermes_gpt.Delegations.Final.{final}
use hermes_gpt.Delegations.Final.Dispatches.{dispatch_step_final}
use hermes_gpt.Delegations.Final.Cancels.{Latched, cancel_step_final}
use hermes_gpt.Delegations.Final.Latch.{cancel_step-Latched}
use hermes_gpt.Delegations.Final.Reconciles.{reconcile_step_final}

unfoldable pub AllLatched : List Cancelling → Type 0
AllLatched [] = Unit
AllLatched (p ∷ ps) = Latched p.place × AllLatched ps

run_dispatch_final :
    (n : ℕ) (i : Dispatch.Input) (rows : List Row) (ps : List Dispatching) (log : List String)
    (d : String)
    → final rows d ≡ true
    → final (run_dispatch n i rows ps log).0 d ≡ true
unfolding run_dispatch
run_dispatch_final n i rows [] log d h = h
run_dispatch_final zero i rows (p ∷ ps) log d h = dispatch_step_final p.request i rows p.place d h
run_dispatch_final (suc n) i rows (p ∷ ps) log d h = run_dispatch_final n i rows ps log d h

run_cancel_final :
    (n : ℕ) (i : Cancel.Input) (rows : List Row) (ps : List Cancelling) (d : String)
    → IsKeyed rows
    → AllLatched ps
    → final rows d ≡ true
    → (final (run_cancel n i rows ps).0 d ≡ true) × AllLatched (run_cancel n i rows ps).1
unfolding run_cancel AllLatched
run_cancel_final n i rows [] d keyed l h = (h, tt)
run_cancel_final zero i rows (p ∷ ps) d keyed (l, ls) h = (
  cancel_step_final p.request i rows p.place d l h,
  (cancel_step-Latched p.request i rows p.place keyed l, ls),
)
run_cancel_final (suc n) i rows (p ∷ ps) d keyed (l, ls) h =
    let rest = run_cancel_final n i rows ps d keyed ls h in (rest.0, (l, rest.1))

run_reconcile_final :
    (n : ℕ) (i : Reconcile.Input) (rows : List Row) (ps : List Reconciling) (d : String)
    → final rows d ≡ true
    → final (run_reconcile n i rows ps).0 d ≡ true
unfolding run_reconcile
run_reconcile_final n i rows [] d h = h
run_reconcile_final zero i rows (p ∷ ps) d h = reconcile_step_final p.request i rows p.place d h
run_reconcile_final (suc n) i rows (p ∷ ps) d h = run_reconcile_final n i rows ps d h

-- What every system that ran from an empty pool of calls keeps.
abbrev pub IsOrderly : System → Type 0
IsOrderly s = IsKeyed s.rows × AllLatched s.cancels

happen_final :
    (s : System) (e : Event) (d : String)
    → IsOrderly s
    → final s.rows d ≡ true
    → (final (happen s e).rows d ≡ true) × AllLatched (happen s e).cancels
unfolding happen AllLatched
happen_final s (dispatch_starts q) d o h = (h, o.1)
happen_final s (cancel_starts q) d o h = (h, (tt, o.1))
happen_final s (reconcile_starts q) d o h = (h, o.1)
happen_final s (dispatch_runs n i) d o h =
    (run_dispatch_final n i s.rows s.dispatches s.submitted d h, o.1)
happen_final s (cancel_runs n i) d o h = run_cancel_final n i s.rows s.cancels d o.0 o.1 h
happen_final s (reconcile_runs n i) d o h = (run_reconcile_final n i s.rows s.reconciles d h, o.1)

-- Where the rows have different ids and every cancellation under way has latched the row that it
-- holds, a completed cancellation stays completed through any steps of any calls.
pub cancelled_stays :
    (es : List Event) (s : System) (d : String)
    → IsOrderly s
    → final s.rows d ≡ true
    → final (happens s es).rows d ≡ true
unfolding happens
cancelled_stays [] s d o h = h
cancelled_stays (e ∷ es) s d o h =
    let next = happen_final s e d o h in
    cancelled_stays es (happen s e) d (happen-IsKeyed s e o.0, next.1) next.0
