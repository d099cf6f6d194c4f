-- ===== src/Delegations/Once.antt =====
-- A contract is submitted to its backend once, whatever calls run, in whatever order.
pub mod Systems
use mathlib.Core.Path.{subst}
use hermes_gpt.Prelude.{
  ℕ, zero, suc, ◌+◌, ◌≤◌, String, Bool, true, false, not, Option, none, some, List, [], ◌∷◌, ◌≡◌,
  refl, sym, ap, ◌∙◌, inl, inr, ◌⊎◌, arith, ◌==◌, eq_iff, eq_refl, Bool-cases, if◌then◌else◌,
}
use hermes_gpt.Prelude.Names
use hermes_gpt.Prelude.Names.{one_if}
use hermes_gpt.Delegations.{Row}
use hermes_gpt.Delegations.Dispatch
use hermes_gpt.Delegations.Cancel
use hermes_gpt.Delegations.Reconcile
use hermes_gpt.Delegations.Run.{
  Dispatching, Cancelling, Reconciling, System, Event, dispatch_starts, cancel_starts,
  reconcile_starts, dispatch_runs, cancel_runs, reconcile_runs, submits, log_if, run_dispatch,
  run_cancel, run_reconcile, happen, happens,
}
use hermes_gpt.Delegations.Phases.{claimable, IsKeyed, Closes, Closes-refl}
use hermes_gpt.Delegations.Phases.Cancelled.{cancel_step-Closes}
use hermes_gpt.Delegations.Phases.Reconciled.{reconcile_step-Closes}
use hermes_gpt.Delegations.Claimed.{holding, Fair, Closes-at}
use hermes_gpt.Delegations.Claimed.Steps.{keeps_key, own_step, other_step, dispatch_step-IsKeyed}

abbrev pub held_by : String → Dispatching → ℕ
held_by d p = if p.request.delegation_id == d then holding p.place else 0

-- How many calls hold a claim of the delegation.
abbrev pub held : String → List Dispatching → ℕ
held d [] = 0
held d (p ∷ ps) = held_by d p + held d ps

-- With `k` claims and submissions elsewhere: a delegation that can be claimed has none, and no
-- delegation has two.
abbrev pub Sole : String → ℕ → List Row → ℕ → Type 0
Sole d k rows n = (claimable rows d ≡ true → k + n ≡ 0) × (k + n ≤ 1)

Fair-Sole :
    (d : String) (k : ℕ) (rows rows' : List Row) (h h' n m : ℕ)
    → Fair d rows rows' h h' n
    → Sole d k rows (h + m)
    → Sole d k rows' (h' + (n + m))
Fair-Sole d k rows rows' h h' n m (inl (back, le)) (free, one) =
    ((λ c. omega (arith, le, free (back c))), omega (arith, le, one))
Fair-Sole d k rows rows' h h' n m (inr (inl (held, gone))) (free, one) =
    ((λ c. omega (arith, held, gone, one)), omega (arith, held, gone, one))
Fair-Sole d k rows rows' h h' n m (inr (inr (was, now, taken))) (free, one) =
    ((λ c. absurd cc), omega (arith, taken, free was))

-- One step of one call.
step-Fair :
    (d : String) (p : Dispatching) (i : Dispatch.Input) (rows : List Row)
    → IsKeyed rows
    → Fair d rows
        (Dispatch.dispatch_step p.request i rows p.place).0
        (held_by d p)
        (held_by d (record p { place = (Dispatch.dispatch_step p.request i rows p.place).1 }))
        (if p.request.delegation_id == d then one_if (submits i p.place) else 0)
step-Fair d p i rows keyed = elim (Bool-cases (p.request.delegation_id == d)) [
  | inl e ↦ rw (e) (
      subst
        (λ x.
          Fair x rows (Dispatch.dispatch_step p.request i rows p.place).0 (holding p.place)
            (holding (Dispatch.dispatch_step p.request i rows p.place).1)
            (one_if (submits i p.place)))
        ((eq_iff p.request.delegation_id d).0 e) (own_step p.request i rows p.place keyed))
  | inr e ↦ rw (e) (inl (other_step p.request i rows p.place d e, omega arith))
]

count-log_if :
    (d : String) (b : Bool) (x : String) (log : List String)
    → Names.count d (log_if b x log) ≡ (if x == d then one_if b else 0) + Names.count d log
count-log_if d true x log = ground arith
count-log_if d false x log = ground arith

pub Sole-sum :
    (d : String) (k k' : ℕ) (rows : List Row) (n n' : ℕ)
    → k + n ≡ k' + n'
    → Sole d k rows n
    → Sole d k' rows n'
Sole-sum d k k' rows n n' e (free, one) = ((λ h. omega (arith, e, free h)), omega (arith, e, one))

pub run_dispatch-Sole :
    (d : String) (k n : ℕ) (i : Dispatch.Input) (rows : List Row) (ps : List Dispatching)
    (log : List String)
    → IsKeyed rows
    → Sole d k rows (held d ps + Names.count d log)
    → Sole d k
        (run_dispatch n i rows ps log).0
        (held d (run_dispatch n i rows ps log).1 + Names.count d (run_dispatch n i rows ps log).2)
unfolding run_dispatch
run_dispatch-Sole d k n i rows [] log keyed sole = sole
run_dispatch-Sole d k zero i rows (p ∷ ps) log keyed sole =
    let done = Dispatch.dispatch_step p.request i rows p.place in
    let h' = held_by d (record p { place = done.1 }) in
    let n = if p.request.delegation_id == d then one_if (submits i p.place) else 0 in
    let m = held d ps + Names.count d log in
    Sole-sum d k k done.0 (h' + (n + m))
      (h' + held d ps + Names.count d (log_if (submits i p.place) p.request.delegation_id log))
      (omega (arith, count-log_if d (submits i p.place) p.request.delegation_id log))
      (Fair-Sole d k rows done.0 (held_by d p) h' n m (step-Fair d p i rows keyed) (
        Sole-sum d k k rows (held_by d p + held d ps + Names.count d log) (held_by d p + m)
          (omega arith) sole))
run_dispatch-Sole d k (suc n) i rows (p ∷ ps) log keyed sole =
    let rest = run_dispatch n i rows ps log in
    let h = held_by d p in
    Sole-sum d (k + h) k rest.0 (held d rest.1 + Names.count d rest.2)
      (h + held d rest.1 + Names.count d rest.2) (omega arith)
      (run_dispatch-Sole d (k + h) n i rows ps log keyed (
        Sole-sum d k (k + h) rows (h + held d ps + Names.count d log)
          (held d ps + Names.count d log) (omega arith) sole))

pub run_dispatch-IsKeyed :
    (n : ℕ) (i : Dispatch.Input) (rows : List Row) (ps : List Dispatching) (log : List String)
    → IsKeyed rows
    → IsKeyed (run_dispatch n i rows ps log).0
unfolding run_dispatch
run_dispatch-IsKeyed n i rows [] log keyed = keyed
run_dispatch-IsKeyed zero i rows (p ∷ ps) log keyed =
    dispatch_step-IsKeyed p.request i rows p.place keyed
run_dispatch-IsKeyed (suc n) i rows (p ∷ ps) log keyed = run_dispatch-IsKeyed n i rows ps log keyed

pub run_cancel-Closes :
    (n : ℕ) (i : Cancel.Input) (rows : List Row) (ps : List Cancelling)
    → Closes rows (run_cancel n i rows ps).0
unfolding run_cancel
run_cancel-Closes n i rows [] = Closes-refl rows
run_cancel-Closes zero i rows (p ∷ ps) = cancel_step-Closes p.request i rows p.place
run_cancel-Closes (suc n) i rows (p ∷ ps) = run_cancel-Closes n i rows ps

pub run_reconcile-Closes :
    (n : ℕ) (i : Reconcile.Input) (rows : List Row) (ps : List Reconciling)
    → Closes rows (run_reconcile n i rows ps).0
unfolding run_reconcile
run_reconcile-Closes n i rows [] = Closes-refl rows
run_reconcile-Closes zero i rows (p ∷ ps) = reconcile_step-Closes p.request i rows p.place
run_reconcile-Closes (suc n) i rows (p ∷ ps) = run_reconcile-Closes n i rows ps
