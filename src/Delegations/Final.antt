-- ===== src/Delegations/Final.antt =====
-- A cancellation that has been completed is final.
pub mod Dispatches
pub mod Cancels
pub mod Latch
pub mod Reconciles
pub mod Systems
use mathlib.Core.Option
use mathlib.Core.Path.{subst}
use hermes_gpt.Prelude.{
  ℕ, zero, suc, ◌+◌, ◌-◌, ◌≤◌, String, Bool, true, false, not, Option, none, some, List, [], ◌∷◌,
  ◌++◌, ◌≡◌, refl, sym, ap, ◌∙◌, inl, inr, ◌⊎◌, arith, ◌==◌, ◌&&◌, ◌||◌, leb, Bool-cases,
  Option-cases, if◌then◌else◌,
}
use hermes_gpt.Prelude.Rows.{select, update, count_found}
use hermes_gpt.Delegations.{
  State, Phase, same_state, same_phase, is_terminal, Row, id_key, invoked_key, one_changed,
}
use hermes_gpt.Delegations.Dispatch
use hermes_gpt.Delegations.Cancel
use hermes_gpt.Delegations.Reconcile
use hermes_gpt.Delegations.Phases.{IsKeyed, selected, read_row}
use hermes_gpt.Delegations.Once.Systems.{happen-IsKeyed}
use hermes_gpt.Delegations.Run.{
  Dispatching, Cancelling, Reconciling, System, Event, dispatch_starts, cancel_starts,
  reconcile_starts, dispatch_runs, cancel_runs, reconcile_runs, run_dispatch, run_cancel,
  run_reconcile, happen, happens,
}

-- The row of a completed cancellation.
abbrev pub is_final : Row → Bool
is_final r =
    (same_state r.state State.cancelled && r.cancel_requested)
    && (same_phase r.dispatch_phase Phase.cancelled && not r.cancellation_in_progress)

abbrev final_found : Option Row → Bool
final_found none = false
final_found (some r) = is_final r

abbrev pub final : List Row → String → Bool
final rows d = final_found (select (id_key d) rows)

final-update_found :
    (p : Row → Bool) (f : Row → Row) (found : Option Row)
    → ((r : Row) → found ≡ some r → is_final r ≡ true → p r ≡ true → is_final (f r) ≡ true)
    → final_found found ≡ true
    → final_found (Option.map (λ r. if p r then f r else r) found) ≡ true
final-update_found p f none kept h = h
final-update_found p f (some r) kept h = elim (Bool-cases (p r)) [
  | inl e ↦ rw (e) (kept r refl h e)
  | inr e ↦ rw (e) h
]

-- An UPDATE leaves a final row so, where it does not touch it or writes one.
pub final-update :
    (p : Row → Bool) (f : Row → Row) (rows : List Row) (d : String)
    → ((r : Row) → (f r).delegation_id ≡ r.delegation_id)
    → ((r : Row)
        → select (id_key d) rows ≡ some r
        → is_final r ≡ true
        → p r ≡ true
        → is_final (f r) ≡ true)
    → final rows d ≡ true
    → final (update p f rows) d ≡ true
final-update p f rows d same kept h =
    ap final_found (selected p f rows d same)
    ∙ final-update_found p f (select (id_key d) rows) kept h

pub final-append :
    (d : String) (r : Row) (rows : List Row) → final rows d ≡ true → final (rows ++ r ∷ []) d ≡ true
unfolding select
final-append d r [] h = absurd cc
final-append d r (x ∷ rows) h = elim (Bool-cases (id_key d x)) [
  | inl e ↦ rw (e) (rw (e) at h)
  | inr e ↦ rw (e) (final-append d r rows (rw (e) at h))
]
