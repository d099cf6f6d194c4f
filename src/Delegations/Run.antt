-- ===== src/Delegations/Run.antt =====
-- Any number of calls of hermes_delegation_dispatch, hermes_delegation_cancel and
-- hermes_delegation_reconcile on one database, in any order of their steps. A call that is never
-- stepped again has crashed.
use hermes_gpt.Prelude.{
  ℕ, zero, suc, String, Bool, false, not, Option, none, some, List, [], ◌∷◌, ◌&&◌, if◌then◌else◌,
}
use hermes_gpt.Delegations.{Row}
use hermes_gpt.Delegations.Dispatch
use hermes_gpt.Delegations.Cancel
use hermes_gpt.Delegations.Reconcile

pub record Dispatching : Type 0 where
  pub request : Dispatch.Request
  pub place : Dispatch.Place

pub record Cancelling : Type 0 where
  pub request : Cancel.Request
  pub place : Cancel.Place

pub record Reconciling : Type 0 where
  pub request : Reconcile.Request
  pub place : Reconcile.Place

-- The database, the calls, and the delegations whose contract a call of the backend has taken or may
-- have taken, the last first.
pub record System : Type 0 where
  pub rows : List Row
  pub dispatches : List Dispatching
  pub cancels : List Cancelling
  pub reconciles : List Reconciling
  pub submitted : List String

-- What happens next: a call starts, or one that is there makes a step.
pub data Event : Type 0 where
  dispatch_starts : Dispatch.Request → Event
  cancel_starts : Cancel.Request → Event
  reconcile_starts : Reconcile.Request → Event
  dispatch_runs : ℕ → Dispatch.Input → Event
  cancel_runs : ℕ → Cancel.Input → Event
  reconcile_runs : ℕ → Reconcile.Input → Event

-- The backend has answered that it did not take the contract: no success, nothing changed, and no
-- word of a submission that may have succeeded.
abbrev pub was_rejected : Option Dispatch.BackendReply → Bool
was_rejected none = false
was_rejected (some b) =
    not b.success
    && (not b.submission_may_have_succeeded
        && elim b.changed [ none ↦ false | some changed ↦ not changed ])

-- Whether a step calls the backend and the backend has not said so.
abbrev pub submits : Dispatch.Input → Dispatch.Place → Bool
submits i Dispatch.calling = not (was_rejected i.reply)
submits i _ = false

abbrev pub log_if : Bool → String → List String → List String
log_if b d log = if b then d ∷ log else log

-- A step of the call at a position: the rows, the calls and the submissions after it.
unfoldable pub run_dispatch :
    ℕ
    → Dispatch.Input
    → List Row
    → List Dispatching
    → List String
    → List Row × List Dispatching × List String
run_dispatch n i rows [] log = (rows, [], log)
run_dispatch zero i rows (p ∷ ps) log =
    let done = Dispatch.dispatch_step p.request i rows p.place in
    (
      done.0,
      record p { place = done.1 } ∷ ps,
      log_if (submits i p.place) p.request.delegation_id log,
    )
run_dispatch (suc n) i rows (p ∷ ps) log =
    let rest = run_dispatch n i rows ps log in (rest.0, p ∷ rest.1, rest.2)

unfoldable pub run_cancel :
    ℕ → Cancel.Input → List Row → List Cancelling → List Row × List Cancelling
run_cancel n i rows [] = (rows, [])
run_cancel zero i rows (p ∷ ps) =
    let done = Cancel.cancel_step p.request i rows p.place in
    (done.0, record p { place = done.1 } ∷ ps)
run_cancel (suc n) i rows (p ∷ ps) = let rest = run_cancel n i rows ps in (rest.0, p ∷ rest.1)

unfoldable pub run_reconcile :
    ℕ → Reconcile.Input → List Row → List Reconciling → List Row × List Reconciling
run_reconcile n i rows [] = (rows, [])
run_reconcile zero i rows (p ∷ ps) =
    let done = Reconcile.reconcile_step p.request i rows p.place in
    (done.0, record p { place = done.1 } ∷ ps)
run_reconcile (suc n) i rows (p ∷ ps) = let rest = run_reconcile n i rows ps in (rest.0, p ∷ rest.1)

unfoldable pub happen : System → Event → System
unfolding run_dispatch run_cancel run_reconcile
happen s (dispatch_starts q) = record s {
  dispatches = record { request = q; place = Dispatch.reserving } ∷ s.dispatches;
}
happen s (cancel_starts q) = record s {
  cancels = record { request = q; place = Cancel.reading } ∷ s.cancels;
}
happen s (reconcile_starts q) = record s {
  reconciles = record { request = q; place = Reconcile.reading } ∷ s.reconciles;
}
happen s (dispatch_runs n i) =
    let done = run_dispatch n i s.rows s.dispatches s.submitted in
    record s { rows = done.0; dispatches = done.1; submitted = done.2 }
happen s (cancel_runs n i) =
    let done = run_cancel n i s.rows s.cancels in record s { rows = done.0; cancels = done.1 }
happen s (reconcile_runs n i) =
    let done = run_reconcile n i s.rows s.reconciles in
    record s { rows = done.0; reconciles = done.1 }

unfoldable pub happens : System → List Event → System
happens s [] = s
happens s (e ∷ es) = happens (happen s e) es
