-- ===== src/Delegations/Reconcile.antt =====
-- operator_delegations.py: hermes_delegation_reconcile after the gates of the policy and the tests of
-- the contract's lineage: the read, the resolution, and the write.
use hermes_gpt.Prelude.{
  ℕ, suc, ◌-◌, String, Bool, true, false, not, Option, none, some, List, ◌==◌, ◌&&◌, ◌||◌, eqb, leb,
  ltb, if◌then◌else◌,
}
use hermes_gpt.Prelude.Rows.{select, update}
use hermes_gpt.Prelude.Result.{Error, lookup_error}
use hermes_gpt.Delegations.{
  State, reconciling, succeeded, failed, cancelled, Phase, Verdict, satisfied, not_satisfied,
  same_state, same_phase, same_verdict, is_terminal, same_time, same_flag, Row, Texts,
  normalize_state, id_key,
}

-- VALIDATION_GRACE_SECONDS
abbrev pub validation_grace_seconds : ℕ
validation_grace_seconds = 30

-- The latest observation of the task: `status` is that, the state or the outcome of the run, or
-- "unknown", `outcome` is that or the state, empty where it has neither, and `terminal_at` is the
-- latest of its terminal times.
pub record Observation : Type 0 where
  pub status : String
  pub outcome : String
  pub has_error : Bool
  pub terminal_at : Option ℕ

-- What the contract of the manifest asks for.
pub record Criteria : Type 0 where
  pub tests_pass : Bool
  pub no_forbidden_actions : Bool
  pub review_required : Bool
  pub artifacts_present : Bool

-- What the call finds outside its table: the clock, the observation, and the validation of the
-- manifest with the status of each kind of check, empty where there is none.
pub record Input : Type 0 where
  pub now : ℕ
  pub texts : Texts
  pub observed : Option Observation
  pub criteria : Criteria
  pub verdict : Verdict
  pub checks : String → String
  pub summary : String
  -- the context digest of a manifest that the call has made from a contract
  pub context_sha256 : Option String

-- What becomes of the row.
pub record Resolution : Type 0 where
  pub desired : State
  pub backend_state : String
  pub outcome : String
  pub cancel_requested : Bool
  pub cancellation_in_progress : Bool
  pub dispatch_phase : Phase
  pub failure_since : Option ℕ

abbrev pub or_text : String → String → String
or_text s t = if s == "" then t else s

abbrev pub unobserved_state : State → State
unobserved_state s = if is_terminal s then s else reconciling

-- `backend_state`, `outcome` and `observed_desired`
abbrev pub observed_backend : Option Observation → String
observed_backend none = "unobserved"
observed_backend (some o) = o.status

abbrev pub observed_outcome : Row → Option Observation → String
observed_outcome r none = r.outcome
observed_outcome r (some o) = or_text o.outcome o.status

abbrev pub observed_state : Texts → Row → Option Observation → State
observed_state t r none = unobserved_state r.state
observed_state t r (some o) =
    if o.has_error then failed else normalize_state (t.normal (or_text o.outcome o.status))

-- _observation_is_fresh_for_cancellation
abbrev pub is_later : Option ℕ → Option ℕ → Bool
is_later (some t) (some claimed) = ltb claimed t
is_later _ _ = false

abbrev pub is_fresh : Row → Option Observation → Bool
is_fresh r none = false
is_fresh r (some o) =
    r.cancellation_watermark_ready && is_later o.terminal_at r.cancellation_claimed_at

abbrev pub is_authoritative : Row → Bool
is_authoritative r = same_state r.state cancelled && r.cancel_requested

abbrev pub is_pending : Row → Bool
is_pending r = r.cancel_requested || r.cancellation_in_progress

-- `observed_desired == "succeeded" and verdict != "SATISFIED"`
abbrev pub is_unverified : State → Verdict → Bool
is_unverified s v = same_state s succeeded && not (same_verdict v satisfied)

abbrev pub is_missing : Option Observation → Bool
is_missing none = true
is_missing (some o) = false

abbrev pub keep : Input → Row → State → String → Resolution
keep i r s outcome = record {
  desired = s;
  backend_state = observed_backend i.observed;
  outcome = outcome;
  cancel_requested = r.cancel_requested;
  cancellation_in_progress = r.cancellation_in_progress;
  dispatch_phase = r.dispatch_phase;
  failure_since = none;
}

abbrev pub resolve_fresh : Input → Row → State → Resolution
resolve_fresh i r s =
    if same_state s cancelled
    then record (keep i r cancelled "cancelled") {
      cancel_requested = true;
      cancellation_in_progress = false;
      dispatch_phase = cancelled;
    }
    else record (keep i r (if is_unverified s i.verdict then reconciling else s)
        (observed_outcome r i.observed)) {
          cancel_requested = false;
          cancellation_in_progress = false;
        }

-- The ladder of the cancellation.
unfoldable pub resolve_state : Input → Row → State → Resolution
resolve_state i r s =
    if is_authoritative r
    then record (keep i r cancelled (or_text r.outcome "cancelled")) {
      cancellation_in_progress = false;
      dispatch_phase = cancelled;
    }
    else if is_pending r && (is_terminal s && is_fresh r i.observed)
    then resolve_fresh i r s
    else if is_pending r
    then keep i r reconciling ""
    else if is_missing i.observed || is_unverified s i.verdict
    then keep i r reconciling (observed_outcome r i.observed)
    else keep i r s (observed_outcome r i.observed)

abbrev pub asked : Bool → String → Input → Bool
asked flag kind i = not flag || i.checks kind == "PASS"

-- `defect`
abbrev pub is_defect : Input → Row → State → Bool
is_defect i r s =
    (same_state s succeeded && same_verdict i.verdict not_satisfied)
    && ((i.criteria.artifacts_present && i.checks "artifacts" == "FAIL")
        && (((i.checks "run_state" == "PASS" && i.checks "authorization" == "PASS")
              && (asked i.criteria.tests_pass "tests" i
                  && (asked i.criteria.no_forbidden_actions "forbidden" i
                      && asked i.criteria.review_required "review" i)))
            && (not (is_pending r) && not (is_authoritative r))))

abbrev pub since : Row → ℕ → ℕ
since r now = elim r.validation_failure_since [ none ↦ now | some t ↦ t ]

-- A defect that has lasted for the grace period fails the delegation.
abbrev pub with_defect : Input → Row → Resolution → Resolution
with_defect i r z =
    let marked = record z { failure_since = some (since r i.now) } in
    if leb validation_grace_seconds (i.now - since r i.now)
    then record marked { desired = failed; outcome = "validation_failed" }
    else marked

-- The resolution of a row.
unfoldable pub resolve : Input → Row → Resolution
unfolding resolve_state
resolve i r =
    let s = observed_state i.texts r i.observed in
    let z = resolve_state i r s in if is_defect i r s then with_defect i r z else z

abbrev pub is_changed : Input → Row → Resolution → Bool
is_changed i r z =
    not (same_state z.desired r.state && same_phase z.dispatch_phase r.dispatch_phase)
    || (not (
          i.texts.bounded z.backend_state == r.backend_state
          && i.texts.bounded z.outcome == r.outcome)
        || (not (
              same_flag z.cancel_requested r.cancel_requested
              && same_flag z.cancellation_in_progress r.cancellation_in_progress)
            || not (
                same_verdict i.verdict r.validation_verdict
                && (i.summary == r.validation_summary
                    && same_time z.failure_since r.validation_failure_since))))

-- `stored.get("terminal_at") or (...)`, and no time where the state is not terminal
abbrev pub ended_at : State → Option ℕ → ℕ → Option ℕ
ended_at s none now = if is_terminal s then some now else none
ended_at s (some t) now = if is_terminal s then some t else none

abbrev pub or_context : Option String → Option String → Option String
or_context none old = old
or_context (some new) old = some new

-- The UPDATE, and that of the manifest.
abbrev pub reconciled : Input → Row → Resolution → Row → Row
reconciled i stored z r = record r {
  context_sha256 = or_context i.context_sha256 r.context_sha256;
  state = z.desired;
  backend_state = i.texts.bounded z.backend_state;
  outcome = i.texts.bounded z.outcome;
  validation_verdict = i.verdict;
  cancel_requested = z.cancel_requested;
  cancellation_in_progress = z.cancellation_in_progress;
  dispatch_phase = z.dispatch_phase;
  validation_summary = i.summary;
  validation_failure_since = z.failure_since;
  authority_version =
      (if is_changed i stored z then suc r.authority_version else r.authority_version);
  updated_at = i.now;
  terminal_at = ended_at z.desired stored.terminal_at i.now;
}

-- `authority_fields`
abbrev pub same_authority : Row → Row → Bool
same_authority r s =
    (same_state r.state s.state
      && (same_phase r.dispatch_phase s.dispatch_phase
          && (same_flag r.cancel_requested s.cancel_requested
              && same_flag r.cancellation_in_progress s.cancellation_in_progress)))
    && (((r.mission_id == s.mission_id && r.task_id == s.task_id)
          && (r.contract_sha256 == s.contract_sha256 && r.backend == s.backend))
        && ((eqb r.authority_version s.authority_version
              && (same_time r.cancellation_claimed_at s.cancellation_claimed_at
                  && (r.cancellation_observation_sha256 == s.cancellation_observation_sha256
                      && same_flag r.cancellation_watermark_ready s.cancellation_watermark_ready)))
            && ((same_time r.terminal_at s.terminal_at && eqb r.updated_at s.updated_at)
                && (r.validation_summary == s.validation_summary
                    && same_time r.validation_failure_since s.validation_failure_since))))

pub record Request : Type 0 where
  pub delegation_id : String
  pub apply : Bool

pub data Reply : Type 0 where
  refused : Error → Reply
  stale : Reply
  preview applied : Resolution → Reply

-- Where a call stands: at its read, or at its write with the row that it read.
pub data Place : Type 0 where
  reading : Place
  writing : Row → Place
  done : Reply → Place

abbrev pub read_found : Option Row → Place
read_found none = done (refused lookup_error)
read_found (some r) = writing r

abbrev pub write_found : Request → Input → Row → List Row → Option Row → List Row × Place
write_found q i stored rows none = (rows, done (refused lookup_error))
write_found q i stored rows (some r) =
    if same_authority r stored
    then (
      update (id_key q.delegation_id) (reconciled i stored (resolve i stored)) rows,
      done (applied (resolve i stored)),
    )
    else (rows, done stale)

unfoldable pub write : Request → Input → Row → List Row → List Row × Place
write q i stored rows =
    if q.apply
    then write_found q i stored rows (select (id_key q.delegation_id) rows)
    else (rows, done (preview (resolve i stored)))

-- One step of a call.
unfoldable pub reconcile_step : Request → Input → List Row → Place → List Row × Place
unfolding write
reconcile_step q i rows reading = (rows, read_found (select (id_key q.delegation_id) rows))
reconcile_step q i rows (writing stored) = write q i stored rows
reconcile_step q i rows (done r) = (rows, done r)
