-- ===== src/Delegations/Once/Systems.antt =====
-- The invariant along any steps of any calls.
use hermes_gpt.Prelude.{
  ℕ, ◌+◌, ◌≤◌, String, false, List, [], ◌∷◌, ◌≡◌, refl, inl, inr, ◌⊎◌, arith, Bool-cases,
}
use hermes_gpt.Prelude.Names
use hermes_gpt.Prelude.Names.{one_if}
use hermes_gpt.Delegations.{Row}
use hermes_gpt.Delegations.Dispatch
use hermes_gpt.Delegations.Run.{
  System, Event, dispatch_starts, cancel_starts, reconcile_starts, dispatch_runs, cancel_runs,
  reconcile_runs, happen, happens,
}
use hermes_gpt.Delegations.Phases.{claimable, IsKeyed, Closes}
use hermes_gpt.Delegations.Claimed.{Closes-at}
use hermes_gpt.Delegations.Claimed.Steps.{keeps_key}
use hermes_gpt.Delegations.Once.{
  held_by, held, Sole, Sole-sum, run_dispatch-Sole, run_dispatch-IsKeyed, run_cancel-Closes,
  run_reconcile-Closes,
}

-- The invariant of a system, for a delegation.
abbrev pub IsSound : String → System → Type 0
IsSound d s = IsKeyed s.rows × Sole d 0 s.rows (held d s.dispatches + Names.count d s.submitted)

Closes-Sole :
    (d : String) (k : ℕ) (rows rows' : List Row) (n : ℕ)
    → Closes rows rows'
    → Sole d k rows n
    → Sole d k rows' n
Closes-Sole d k rows rows' n c (free, one) = ((λ h. free (Closes-at rows rows' d c h)), one)

happen-IsSound : (d : String) (s : System) (e : Event) → IsSound d s → IsSound d (happen s e)
unfolding happen
happen-IsSound d s (dispatch_starts q) (keyed, sole) = (
  keyed,
  Sole-sum d 0 0 s.rows (held d s.dispatches + Names.count d s.submitted)
      (held_by d (record { request = q; place = Dispatch.reserving })
        + held d s.dispatches
        + Names.count d s.submitted)
      (ground arith) sole,
)
happen-IsSound d s (cancel_starts q) h = h
happen-IsSound d s (reconcile_starts q) h = h
happen-IsSound d s (dispatch_runs n i) (keyed, sole) = (
  run_dispatch-IsKeyed n i s.rows s.dispatches s.submitted keyed,
  run_dispatch-Sole d 0 n i s.rows s.dispatches s.submitted keyed sole,
)
happen-IsSound d s (cancel_runs n i) (keyed, sole) =
    let c = run_cancel-Closes n i s.rows s.cancels in
    (keeps_key s.rows _ c keyed, Closes-Sole d 0 s.rows _ _ c sole)
happen-IsSound d s (reconcile_runs n i) (keyed, sole) =
    let c = run_reconcile-Closes n i s.rows s.reconciles in
    (keeps_key s.rows _ c keyed, Closes-Sole d 0 s.rows _ _ c sole)

pub happen-IsKeyed : (s : System) (e : Event) → IsKeyed s.rows → IsKeyed (happen s e).rows
unfolding happen
happen-IsKeyed s (dispatch_starts q) keyed = keyed
happen-IsKeyed s (cancel_starts q) keyed = keyed
happen-IsKeyed s (reconcile_starts q) keyed = keyed
happen-IsKeyed s (dispatch_runs n i) keyed =
    run_dispatch-IsKeyed n i s.rows s.dispatches s.submitted keyed
happen-IsKeyed s (cancel_runs n i) keyed =
    keeps_key s.rows _ (run_cancel-Closes n i s.rows s.cancels) keyed
happen-IsKeyed s (reconcile_runs n i) keyed =
    keeps_key s.rows _ (run_reconcile-Closes n i s.rows s.reconciles) keyed

pub happens-IsSound :
    (d : String) (es : List Event) (s : System) → IsSound d s → IsSound d (happens s es)
unfolding happens
happens-IsSound d [] s h = h
happens-IsSound d (e ∷ es) s h = happens-IsSound d es (happen s e) (happen-IsSound d s e h)

-- A database with one row for an id, and no call yet.
abbrev pub start : List Row → System
start rows = record { rows = rows; dispatches = []; cancels = []; reconciles = []; submitted = [] }

-- From a database with one row for an id, and with no call under way, in any sequence of steps of any
-- dispatches, cancellations and reconciliations, at most one call of a backend has taken or may have
-- taken the contract of a delegation, and none while the delegation can be dispatched.
pub submitted_once :
    (rows : List Row) (es : List Event) (d : String)
    → IsKeyed rows
    → (Names.count d (happens (start rows) es).submitted ≤ 1)
      × ((claimable (happens (start rows) es).rows d ≡ false)
          ⊎ (Names.count d (happens (start rows) es).submitted ≡ 0))
submitted_once rows es d keyed =
    let sound = happens-IsSound d es (start rows) (keyed, ((λ h. refl), omega arith)) in
    let s = happens (start rows) es in
    (
      omega (arith, sound.1.1),
      elim (Bool-cases (claimable s.rows d)) [
        | inl c ↦ inr (omega (arith, sound.1.0 c))
        | inr c ↦ inl c
      ],
    )
