-- ===== src/Examples/Delegating.antt =====
-- A delegation that two calls dispatch at once, and what becomes of it.
use hermes_gpt.Prelude.{◌≤◌, true, false, ◌≡◌, ◌⊎◌, refl, none, some, List, [], ◌∷◌, arith}
use hermes_gpt.Prelude.Names
use hermes_gpt.Prelude.Rows.{select, update, count}
use hermes_gpt.Delegations.{State, Phase, satisfied, unknown, Row, Texts, id_key, normalize_state}
use hermes_gpt.Delegations.Dispatch
use hermes_gpt.Delegations.Reconcile
use hermes_gpt.Delegations.Run.{
  Event, dispatch_starts, reconcile_starts, dispatch_runs, reconcile_runs, run_dispatch,
  run_reconcile, happen, happens,
}
use hermes_gpt.Delegations.Phases.{claimable, IsKeyed}
use hermes_gpt.Delegations.Once.Systems.{start, submitted_once}
use hermes_gpt.Delegations.Verified.{AllProved}
use hermes_gpt.Delegations.Verified.Systems.{succeeded_verified}
use hermes_gpt.Delegations.Final.{final}
use hermes_gpt.Delegations.Final.Systems.{AllLatched, IsOrderly, cancelled_stays}

abbrev plain : Texts
plain = record { bounded = λ s. s; normal = λ s. s }

abbrev contract : Dispatch.Request
contract = record {
  delegation_id = "dlg-1";
  mission_id = "";
  task_id = "task-1";
  contract_sha256 = "c0ffee";
  backend = "hermes";
  context_sha256 = "beef";
}

abbrev accepting : Dispatch.Input
accepting = record {
  now = 10;
  texts = plain;
  attached = true;
  dispatchable = true;
  reply = some (record {
    success = true;
    changed = some true;
    submission_may_have_succeeded = false;
    state = "running";
  });
  raises = false;
}

-- Two calls whose steps alternate, the second a step behind the first.
abbrev race : List Event
race =
    dispatch_starts contract
    ∷ dispatch_starts contract
    ∷ dispatch_runs 0 accepting
    ∷ dispatch_runs 1 accepting
    ∷ dispatch_runs 0 accepting
    ∷ dispatch_runs 1 accepting
    ∷ dispatch_runs 0 accepting
    ∷ dispatch_runs 1 accepting
    ∷ dispatch_runs 0 accepting
    ∷ dispatch_runs 0 accepting
    ∷ dispatch_runs 0 accepting
    ∷ dispatch_runs 1 accepting
    ∷ []

no_rows : IsKeyed []
unfolding count
no_rows d = omega arith

-- The contract is submitted, so the bound is reached.
race_submits : (happens (start []) race).submitted ≡ "dlg-1" ∷ []
unfolding happens happen run_dispatch Dispatch.dispatch_step Dispatch.reserve Dispatch.claim
    Dispatch.call_backend Dispatch.record_dispatch normalize_state select update count
race_submits = refl

submitted_once_example :
    (Names.count "dlg-1" (happens (start []) race).submitted ≤ 1)
    × ((claimable (happens (start []) race).rows "dlg-1" ≡ false)
        ⊎ (Names.count "dlg-1" (happens (start []) race).submitted ≡ 0))
submitted_once_example = submitted_once [] race "dlg-1" no_rows

abbrev running_row : Row
running_row = record {
  delegation_id = "dlg-1";
  mission_id = "";
  task_id = "task-1";
  contract_sha256 = "c0ffee";
  backend = "hermes";
  context_sha256 = some "beef";
  state = State.running;
  backend_state = "running";
  outcome = "";
  validation_verdict = unknown;
  cancel_requested = false;
  authority_version = 1;
  cancellation_in_progress = false;
  cancellation_claimed_at = none;
  cancellation_observation_sha256 = "";
  cancellation_watermark_ready = false;
  dispatch_phase = Phase.dispatched;
  dispatched_at = some 10;
  updated_at = 10;
  terminal_at = none;
  validation_summary = "{}";
  validation_failure_since = none;
}

abbrev observation : Reconcile.Input
observation = record {
  now = 50;
  texts = plain;
  observed = some (record {
    status = "completed";
    outcome = "completed";
    has_error = false;
    terminal_at = some 45;
  });
  criteria = record {
    tests_pass = true;
    no_forbidden_actions = true;
    review_required = false;
    artifacts_present = true;
  };
  verdict = satisfied;
  checks = λ kind. "PASS";
  summary = "{}";
  context_sha256 = none;
}

abbrev reconciliation : List Event
reconciliation =
    reconcile_starts (record { delegation_id = "dlg-1"; apply = true })
    ∷ reconcile_runs 0 observation
    ∷ reconcile_runs 0 observation
    ∷ []

abbrev succeeded_row : Row
succeeded_row = record running_row {
  state = State.succeeded;
  backend_state = "completed";
  outcome = "completed";
  validation_verdict = satisfied;
  authority_version = 2;
  updated_at = 50;
  terminal_at = some 50;
}

running_proved : AllProved (running_row ∷ [])
unfolding AllProved
running_proved = ((λ h. absurd cc), tt)

reconciled_row :
    select (id_key "dlg-1") (happens (start (running_row ∷ [])) reconciliation).rows
    ≡ some succeeded_row
unfolding happens happen run_reconcile Reconcile.reconcile_step Reconcile.write Reconcile.resolve
    Reconcile.resolve_state normalize_state select update
reconciled_row = refl

succeeded_verified_example : succeeded_row.validation_verdict ≡ satisfied
succeeded_verified_example =
    succeeded_verified reconciliation (start (running_row ∷ [])) "dlg-1" succeeded_row
      running_proved reconciled_row refl

abbrev cancelled_row : Row
cancelled_row = record running_row {
  state = State.cancelled;
  outcome = "cancelled";
  cancel_requested = true;
  dispatch_phase = Phase.cancelled;
  terminal_at = some 20;
}

cancelled-IsOrderly : IsOrderly (start (cancelled_row ∷ []))
unfolding count AllLatched
cancelled-IsOrderly = (λ d. ground arith, tt)

cancelled_final : final (start (cancelled_row ∷ [])).rows "dlg-1" ≡ true
unfolding select
cancelled_final = refl

cancelled_stays_example :
    final (happens (start (cancelled_row ∷ [])) reconciliation).rows "dlg-1" ≡ true
cancelled_stays_example =
    cancelled_stays reconciliation (start (cancelled_row ∷ [])) "dlg-1" cancelled-IsOrderly
      cancelled_final
