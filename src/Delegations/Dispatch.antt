-- ===== src/Delegations/Dispatch.antt =====
-- operator_delegations.py: hermes_delegation_dispatch after the parsing of the contract and the gates
-- of the policy, in steps between which other processes may run: a step is one transaction, or one
-- call of another component, whose answer is an input.
use hermes_gpt.Prelude.{
  ℕ, String, Bool, true, false, not, Option, none, some, List, [], ◌∷◌, ◌++◌, ◌==◌, ◌&&◌, ◌||◌,
  if◌then◌else◌,
}
use hermes_gpt.Prelude.Rows.{select, update}
use hermes_gpt.Prelude.Result.{Error, value_error, lookup_error, runtime_error}
use hermes_gpt.Delegations.{
  State, reserved, queued, reconciling, succeeded, cancelled, Phase, invoking, dispatched, unknown,
  same_state, same_phase, Row, Texts, normalize_state, id_key, invoked_key, one_changed,
}

-- The call's arguments, with what the contract says.
pub record Request : Type 0 where
  pub delegation_id : String
  pub mission_id : String
  pub task_id : String
  pub contract_sha256 : String
  pub backend : String
  pub context_sha256 : String

-- What hermes_contract_dispatch answers: `state` is that or `status`, and `changed` is `none` where
-- the answer has no such member.
pub record BackendReply : Type 0 where
  pub success : Bool
  pub changed : Option Bool
  pub submission_may_have_succeeded : Bool
  pub state : String

-- The inputs of a step: the clock, what the mission runtime and the backend answer, and whether the
-- statements of the step raise. A backend that raises answers `none`.
pub record Input : Type 0 where
  pub now : ℕ
  pub texts : Texts
  pub attached : Bool
  pub dispatchable : Bool
  pub reply : Option BackendReply
  pub raises : Bool

pub data Reply : Type 0 where
  refused : Error → Reply
  dispatch_cancelled in_progress idempotent cas_lost backend_rejected outcome_ambiguous : Reply
  accepted : (ambiguous : Bool) → Reply

-- Where a call stands.
pub data Place : Type 0 where
  reserving attaching claiming guarding releasing calling rejecting marking : Place
  recording : (ambiguous : Bool) → (backend_state : String) → Place
  done : Reply → Place

-- `WHERE delegation_id=? OR task_id=?`
abbrev pub collides : Request → Row → Bool
collides q r = r.delegation_id == q.delegation_id || r.task_id == q.task_id

abbrev pub is_exact : Request → Row → Bool
is_exact q r =
    (r.delegation_id == q.delegation_id && r.task_id == q.task_id)
    && ((r.contract_sha256 == q.contract_sha256 && r.mission_id == q.mission_id)
        && r.backend == q.backend)

abbrev pub new_row : Request → ℕ → Row
new_row q now = record {
  delegation_id = q.delegation_id;
  mission_id = q.mission_id;
  task_id = q.task_id;
  contract_sha256 = q.contract_sha256;
  backend = q.backend;
  context_sha256 = some q.context_sha256;
  state = reserved;
  backend_state = "";
  outcome = "";
  validation_verdict = unknown;
  cancel_requested = false;
  authority_version = 1;
  cancellation_in_progress = false;
  cancellation_claimed_at = none;
  cancellation_observation_sha256 = "";
  cancellation_watermark_ready = false;
  dispatch_phase = reserved;
  dispatched_at = none;
  updated_at = now;
  terminal_at = none;
  validation_summary = "{}";
  validation_failure_since = none;
}

-- What a call does that finds its lineage, past the test of its state.
abbrev pub resume_phase : Phase → Place
resume_phase reserved = attaching
resume_phase invoking = done in_progress
resume_phase dispatched = done idempotent
resume_phase cancelled = done idempotent

abbrev pub resume_manifest : Request → Row → Option String → Place
resume_manifest q r none = done (refused lookup_error)
resume_manifest q r (some context) =
    if not (context == q.context_sha256)
    then done (refused value_error)
    else if same_state r.state cancelled
    then done dispatch_cancelled
    else resume_phase r.dispatch_phase

abbrev pub resume : Request → Row → Place
resume q r =
    if is_exact q r then resume_manifest q r r.context_sha256 else done (refused value_error)

abbrev pub reserve_found : Request → ℕ → List Row → Option Row → List Row × Place
reserve_found q now rows none = (rows ++ new_row q now ∷ [], attaching)
reserve_found q now rows (some r) =
    (rows, (if one_changed (collides q) rows then resume q r else done (refused value_error)))

-- The first transaction.
unfoldable pub reserve : Request → ℕ → List Row → List Row × Place
reserve q now rows = reserve_found q now rows (select (collides q) rows)

abbrev pub waits : Row → Bool
waits r =
    same_phase r.dispatch_phase reserved && (same_state r.state reserved && not r.cancel_requested)

-- `WHERE delegation_id=? AND dispatch_phase='reserved' AND state='reserved' AND cancel_requested=0`
abbrev pub claim_key : String → Row → Bool
claim_key d r = id_key d r && waits r

abbrev pub claimed : ℕ → Row → Row
claimed now r = record r { dispatch_phase = invoking; updated_at = now }

abbrev pub claim_lost_row : Row → Place
claim_lost_row r =
    if same_state r.state cancelled
    then done dispatch_cancelled
    else if same_phase r.dispatch_phase invoking
    then done in_progress
    else done idempotent

abbrev pub claim_lost : Option Row → Place
claim_lost none = done (refused lookup_error)
claim_lost (some r) = claim_lost_row r

-- The claim of the invocation.
unfoldable pub claim : String → ℕ → List Row → List Row × Place
claim d now rows =
    if one_changed (claim_key d) rows
    then (update (claim_key d) (claimed now) rows, guarding)
    else (rows, claim_lost (select (id_key d) rows))

abbrev pub released : ℕ → Row → Row
released now r = record r { dispatch_phase = reserved; updated_at = now }

-- `WHERE delegation_id=? AND dispatch_phase='invoking'`
abbrev pub phase_key : String → Row → Bool
phase_key d r = id_key d r && same_phase r.dispatch_phase invoking

-- The return of the claim when _mission_dispatch_guard raises.
unfoldable pub release_claim : String → ℕ → List Row → List Row × Place
release_claim d now rows = (update (phase_key d) (released now) rows, done (refused runtime_error))

abbrev pub is_ambiguous : BackendReply → Bool
is_ambiguous b =
    b.submission_may_have_succeeded
    || (not b.success && elim b.changed [ none ↦ true | some changed ↦ changed ])

-- `dispatch.get("state") or dispatch.get("status") or (...)`
abbrev pub reply_state : Bool → String → String
reply_state ambiguous s = if s == "" then (if ambiguous then "ambiguous" else "queued") else s

-- The call of the backend.
unfoldable pub call_backend : Option BackendReply → Place
call_backend none = marking
call_backend (some b) =
    if not b.success && not (is_ambiguous b)
    then rejecting
    else recording (is_ambiguous b) (reply_state (is_ambiguous b) b.state)

-- The return of the claim when the backend has rejected the contract.
unfoldable pub reject : String → ℕ → List Row → List Row × Place
reject d now rows = (
  update (invoked_key d) (released now) rows,
  done (if one_changed (invoked_key d) rows then backend_rejected else cas_lost),
)

-- What a dispatch says of itself is no proof of completion.
abbrev pub recorded_state : Bool → State → String → State
recorded_state ambiguous s backend_state =
    let state = if ambiguous then reconciling else s in
    let unproved = if same_state state succeeded then reconciling else state in
    if same_state unproved reconciling && (not ambiguous && backend_state == "")
    then queued
    else unproved

abbrev pub recorded : Input → Bool → String → Row → Row
recorded i ambiguous backend_state r = record r {
  state = recorded_state ambiguous (normalize_state (i.texts.normal backend_state)) backend_state;
  backend_state = i.texts.bounded backend_state;
  dispatch_phase = (if ambiguous then invoking else dispatched);
  dispatched_at = some i.now;
  updated_at = i.now;
}

unfoldable pub record_dispatch : String → Input → Bool → String → List Row → List Row × Place
record_dispatch d i ambiguous backend_state rows = (
  update (invoked_key d) (recorded i ambiguous backend_state) rows,
  done (if one_changed (invoked_key d) rows then accepted ambiguous else cas_lost),
)

abbrev pub marked : ℕ → Row → Row
marked now r = record r { state = reconciling; backend_state = "ambiguous"; updated_at = now }

-- The handler of an exception after the backend was called.
unfoldable pub mark_ambiguous : String → ℕ → List Row → List Row × Place
mark_ambiguous d now rows = (update (invoked_key d) (marked now) rows, done outcome_ambiguous)

-- One step of a call. A step that raises writes nothing.
unfoldable pub dispatch_step : Request → Input → List Row → Place → List Row × Place
unfolding reserve claim release_claim reject record_dispatch mark_ambiguous
dispatch_step q i rows reserving = reserve q i.now rows
dispatch_step q i rows attaching =
    (rows, (if q.mission_id == "" || i.attached then claiming else done (refused runtime_error)))
dispatch_step q i rows claiming = claim q.delegation_id i.now rows
dispatch_step q i rows guarding =
    (rows, (if q.mission_id == "" || i.dispatchable then calling else releasing))
dispatch_step q i rows releasing = release_claim q.delegation_id i.now rows
dispatch_step q i rows calling = (rows, call_backend i.reply)
dispatch_step q i rows rejecting =
    if i.raises then (rows, marking) else reject q.delegation_id i.now rows
dispatch_step q i rows (recording ambiguous s) =
    if i.raises then (rows, marking) else record_dispatch q.delegation_id i ambiguous s rows
dispatch_step q i rows marking =
    if i.raises then (rows, done outcome_ambiguous) else mark_ambiguous q.delegation_id i.now rows
dispatch_step q i rows (done r) = (rows, done r)
