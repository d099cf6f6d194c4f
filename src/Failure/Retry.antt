-- ===== src/Failure/Retry.antt =====
-- When a decision proposes an automatic retry.
use hermes_gpt.Prelude.{Bool, false, ◌&&◌, ◌||◌, not}
use hermes_gpt.Failure.{authority, environment, Envelope, Ruling, enums_valid, row_retries}
use hermes_gpt.Failure.Ladder.{
  worker_dead, is_ambiguous, lacks_capability, is_semantic, is_cancelled, is_unobserved,
  has_transient_flavor,
}
use hermes_gpt.Failure.Classify.{row_of}

-- A ruling that is for a retry while the breaker is closed.
abbrev retries : Ruling → Bool
retries r = row_retries (row_of r false)

-- What a retry that is not the reclaim of a dead worker needs.
abbrev pub is_retriable : Envelope → Bool
is_retriable e =
    not (is_ambiguous e)
    && (not e.evidence.authority
        && (not (lacks_capability e)
            && (not e.evidence.environment && (not (is_semantic e) && has_transient_flavor e))))

-- A live observation of known values that reclaims a dead worker or is retriable.
abbrev pub speaks_for_retry : Envelope → Bool
speaks_for_retry e =
    enums_valid e
    && (not (is_cancelled e) && (not (is_unobserved e) && (worker_dead e || is_retriable e)))
