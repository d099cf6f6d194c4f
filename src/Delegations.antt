-- ===== src/Delegations.antt =====
-- operator_delegations.py: the table delegations, the states and the tests of its UPDATE statements.
-- A time is a number, and an empty text for a time is `none`. `_bounded`, with the redaction of
-- operator_policy.py, and `strip().lower().replace("-", "_")` are arguments: Texts.
pub mod Dispatch
pub mod Cancel
pub mod Reconcile
pub mod Run
pub mod Phases
pub mod Claimed
pub mod Once
pub mod Verified
pub mod Final
use hermes_gpt.Prelude.{
  ℕ, suc, ◌+◌, String, Bool, true, false, not, Option, none, some, List, [], ◌∷◌, ◌==◌, ◌&&◌, ◌||◌,
  eqb, any, if◌then◌else◌,
}
use hermes_gpt.Prelude.Rows.{select, update, count}

-- STATES
pub data State : Type 0 where
  reserved queued running reconciling succeeded failed cancelled : State

-- DISPATCH_PHASES
pub data Phase : Type 0 where
  reserved invoking dispatched cancelled : Phase

-- The verdict of a Work Contract; `unknown` is any other text, and the empty one.
pub data Verdict : Type 0 where
  satisfied not_satisfied inconclusive invalid_contract unknown : Verdict

abbrev pub state_number : State → ℕ
state_number reserved = 0
state_number queued = 1
state_number running = 2
state_number reconciling = 3
state_number succeeded = 4
state_number failed = 5
state_number cancelled = 6

abbrev pub same_state : State → State → Bool
same_state s t = eqb (state_number s) (state_number t)

abbrev pub phase_number : Phase → ℕ
phase_number reserved = 0
phase_number invoking = 1
phase_number dispatched = 2
phase_number cancelled = 3

abbrev pub same_phase : Phase → Phase → Bool
same_phase p q = eqb (phase_number p) (phase_number q)

abbrev pub verdict_number : Verdict → ℕ
verdict_number satisfied = 0
verdict_number not_satisfied = 1
verdict_number inconclusive = 2
verdict_number invalid_contract = 3
verdict_number unknown = 4

abbrev pub same_verdict : Verdict → Verdict → Bool
same_verdict v w = eqb (verdict_number v) (verdict_number w)

-- TERMINAL_STATES
abbrev pub is_terminal : State → Bool
is_terminal s = same_state s succeeded || (same_state s failed || same_state s cancelled)

abbrev pub same_time : Option ℕ → Option ℕ → Bool
same_time none none = true
same_time (some s) (some t) = eqb s t
same_time _ _ = false

abbrev pub same_flag : Bool → Bool → Bool
same_flag true b = b
same_flag false b = not b

-- A row of delegations. The context digest is that of its row of delegation_validation_manifests,
-- `none` where it has no such row. The schema, created_at and backend_ref_json are left out.
pub record Row : Type 0 where
  pub delegation_id : String
  pub mission_id : String
  pub task_id : String
  pub contract_sha256 : String
  pub backend : String
  pub context_sha256 : Option String
  pub state : State
  pub backend_state : String
  pub outcome : String
  pub validation_verdict : Verdict
  pub cancel_requested : Bool
  pub authority_version : ℕ
  pub cancellation_in_progress : Bool
  pub cancellation_claimed_at : Option ℕ
  pub cancellation_observation_sha256 : String
  pub cancellation_watermark_ready : Bool
  pub dispatch_phase : Phase
  pub dispatched_at : Option ℕ
  pub updated_at : ℕ
  pub terminal_at : Option ℕ
  pub validation_summary : String
  pub validation_failure_since : Option ℕ

-- What the code makes of texts that it is given.
pub record Texts : Type 0 where
  pub bounded : String → String
  pub normal : String → String

-- `state in {...}`
abbrev pub one_of : List String → String → Bool
one_of names s = any (λ name. s == name) names

-- _normalize_state, after strip, lower and replace
unfoldable pub normalize_state : String → State
normalize_state s =
    if one_of ("queued" ∷ "accepted" ∷ "pending" ∷ "created" ∷ "submitted" ∷ []) s
    then queued
    else if one_of ("running" ∷ "active" ∷ "in_progress" ∷ "started" ∷ []) s
    then running
    else if one_of ("completed" ∷ "complete" ∷ "succeeded" ∷ "success" ∷ "done" ∷ "satisfied" ∷ [])
        s
    then succeeded
    else if one_of ("failed" ∷ "failure" ∷ "error" ∷ "errored" ∷ "not_satisfied" ∷ []) s
    then failed
    else if one_of ("cancelled" ∷ "canceled" ∷ "cancel_requested" ∷ []) s
    then (if s == "cancel_requested" then running else cancelled)
    else reconciling

-- `WHERE delegation_id=?`
abbrev pub id_key : String → Row → Bool
id_key d r = r.delegation_id == d

-- `WHERE delegation_id=? AND dispatch_phase='invoking' AND state='reserved' AND cancel_requested=0`
abbrev pub invoked_key : String → Row → Bool
invoked_key d r =
    id_key d r
    && (same_phase r.dispatch_phase invoking
        && (same_state r.state reserved && not r.cancel_requested))

-- `cursor.rowcount == 1`
abbrev pub one_changed : (Row → Bool) → List Row → Bool
one_changed p rows = eqb (count p rows) 1
