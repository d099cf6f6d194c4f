-- ===== src/Failure.antt =====
-- operator_failure_semantics.py: classify, the ladder that turns an observation into a proposed
-- recovery. The search for error tokens in a text is not modelled: an observation says which classes
-- of token were found.
pub mod Ladder
pub mod Classify
pub mod Retry
use hermes_gpt.Prelude.{
  ℕ, String, Bool, true, false, Option, none, some, List, [], ◌∷◌, ◌==◌, ◌&&◌, ◌||◌, not, any, leb,
  ltb, if◌then◌else◌,
}

-- The classes, and those of the progress rows.
pub data Class : Type 0 where
  transient waiting semantic_failure authority capability environment ambiguous cancelled : Class
  unknown none_dispatchable none_approval none_completion no_failure : Class

-- The rows of MATRIX.
pub data Row : Type 0 where
  dispatch_ready_child reclaim_dead_worker observe_reconciling retry_transient_backoff : Row
  breaker_exhausted escalate_semantic signal_awaiting_approval request_completion : Row
  fail_closed_evidence park_authority park_capability recover_environment : Row
  terminal_no_action wait_recheck unknown_fail_closed : Row

-- _CLASS_TO_ROW
pub class_to_row : Class → Row
class_to_row transient = retry_transient_backoff
class_to_row waiting = wait_recheck
class_to_row semantic_failure = escalate_semantic
class_to_row authority = park_authority
class_to_row capability = park_capability
class_to_row environment = recover_environment
class_to_row ambiguous = observe_reconciling
class_to_row cancelled = terminal_no_action
class_to_row unknown = unknown_fail_closed
class_to_row none_dispatchable = dispatch_ready_child
class_to_row none_approval = signal_awaiting_approval
class_to_row none_completion = request_completion
class_to_row no_failure = wait_recheck

-- `auto_retry` of a row
pub row_retries : Row → Bool
row_retries reclaim_dead_worker = true
row_retries retry_transient_backoff = true
row_retries _ = false

pub record Delegation : Type 0 where
  pub state : String
  pub backend_state : String
  pub outcome : String
  pub validation_verdict : String

-- The classes of which _token_evidence has found a token.
pub record Evidence : Type 0 where
  pub authority : Bool
  pub transient : Bool
  pub environment : Bool
  pub semantic : Bool
  pub capability : Bool

-- The validated envelope of an observation. An absent delegation has empty texts.
pub record Envelope : Type 0 where
  pub delegation : Delegation
  -- the runner's outcome, and whether it has an error text
  pub runner : Option (String × Bool)
  -- the kind of the worker's exit
  pub worker_exit : Option String
  -- `ok` of the capability negotiation
  pub capability_ok : Option Bool
  pub has_error_text : Bool
  pub evidence : Evidence
  pub node_state : String
  pub parent_done : Bool
  pub all_children_terminal : Bool
  pub replan_attempts_used : ℕ
  pub mission_status : String
  pub final_approval_required : Bool
  pub gave_up : Bool
  pub limit : ℕ
  pub consecutive_failures : ℕ

-- What a step of the ladder decides.
pub record Ruling : Type 0 where
  pub class : Class
  pub row_override : Option Row
  pub replan : Bool

pub record Decision : Type 0 where
  pub classification : Class
  pub row_key : Row
  pub auto_retry : Bool
  pub need_attention : Bool
  pub breaker_open : Bool
  pub replan : Bool

-- `value in values`
abbrev pub one_of : List String → String → Bool
one_of values value = any (λ v. value == v) values

-- _enums_valid
unfoldable pub enums_valid : Envelope → Bool
enums_valid e =
    one_of
      ("" ∷ "reserved" ∷ "queued" ∷ "running" ∷ "reconciling" ∷ "succeeded" ∷ "failed" ∷ "cancelled"
        ∷ [])
      e.delegation.state
    && (one_of ("" ∷ "SATISFIED" ∷ "NOT_SATISFIED" ∷ "INCONCLUSIVE" ∷ "INVALID_CONTRACT" ∷ [])
          e.delegation.validation_verdict
        && (elim e.worker_exit [
          | none ↦ true
          | some kind ↦
              one_of
                ("" ∷ "clean_exit" ∷ "rate_limited" ∷ "nonzero_exit" ∷ "signaled" ∷ "unknown" ∷ [])
                kind
        ]
            && (one_of
                  ("" ∷ "pending" ∷ "blockable" ∷ "dispatched" ∷ "running" ∷ "awaiting_review"
                    ∷ "validated" ∷ "awaiting_approval" ∷ "completed" ∷ "failed" ∷ "paused" ∷ [])
                  e.node_state
                && one_of
                    ("" ∷ "draft" ∷ "running" ∷ "awaiting_approval" ∷ "completed" ∷ "paused"
                      ∷ "blocked" ∷ [])
                    e.mission_status)))

abbrev pub ruling : Class → Ruling
ruling c = record { class = c; row_override = none; replan = false }

pub when : Bool → Ruling → Option Ruling
when test r = if test then some r else none
