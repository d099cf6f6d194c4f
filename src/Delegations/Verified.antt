-- ===== src/Delegations/Verified.antt =====
-- A delegation that has succeeded has a satisfied contract.
pub mod Dispatches
pub mod Cancels
pub mod Reconciles
pub mod Systems
use mathlib.Core.Path.{subst}
use hermes_gpt.Prelude.{
  ℕ, zero, suc, ◌+◌, ◌-◌, ◌≤◌, String, Bool, true, false, not, Option, none, some, List, [], ◌∷◌,
  ◌++◌, ◌≡◌, refl, sym, ap, ◌∙◌, inl, inr, ◌⊎◌, arith, ◌==◌, ◌&&◌, ◌||◌, leb, Bool-cases,
  Option-cases, if◌then◌else◌,
}
use hermes_gpt.Prelude.Rows.{select, update, select_sound}
use hermes_gpt.Delegations.{
  State, succeeded, failed, cancelled, reconciling, queued, reserved, same_state, is_terminal,
  Verdict, satisfied, not_satisfied, inconclusive, invalid_contract, unknown, same_verdict, Row,
  id_key, one_changed, normalize_state,
}
use hermes_gpt.Delegations.Dispatch
use hermes_gpt.Delegations.Cancel
use hermes_gpt.Delegations.Reconcile
use hermes_gpt.Delegations.Phases.{some_injective}
use hermes_gpt.Delegations.Run.{
  Dispatching, Cancelling, Reconciling, System, Event, dispatch_starts, cancel_starts,
  reconcile_starts, dispatch_runs, cancel_runs, reconcile_runs, run_dispatch, run_cancel,
  run_reconcile, happen, happens,
}

-- A success has the verdict SATISFIED.
abbrev pub IsProved : Row → Type 0
IsProved r =
    same_state r.state succeeded ≡ true → same_verdict r.validation_verdict satisfied ≡ true

unfoldable pub AllProved : List Row → Type 0
AllProved [] = Unit
AllProved (r ∷ rows) = IsProved r × AllProved rows

pub update-AllProved :
    (p : Row → Bool) (f : Row → Row) (rows : List Row)
    → ((r : Row) → IsProved r → IsProved (f r))
    → AllProved rows
    → AllProved (update p f rows)
unfolding update AllProved
update-AllProved p f [] kept h = h
update-AllProved p f (r ∷ rows) kept (h, hs) = elim (Bool-cases (p r)) [
  | inl e ↦ rw (e) (kept r h, update-AllProved p f rows kept hs)
  | inr e ↦ rw (e) (h, update-AllProved p f rows kept hs)
]

pub append-AllProved :
    (r : Row) (rows : List Row) → IsProved r → AllProved rows → AllProved (rows ++ r ∷ [])
unfolding AllProved
append-AllProved r [] h hs = (h, tt)
append-AllProved r (x ∷ rows) h (hx, hs) = (hx, append-AllProved r rows h hs)

pub true_not_false : true ≡ false → ⊥
true_not_false h = cc
