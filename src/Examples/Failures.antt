-- ===== src/Examples/Failures.antt =====
-- A throttled worker, and a dead one whose delegation is ambiguous.
use hermes_gpt.Prelude.{◌≡◌, refl, true, false, none, some}
use hermes_gpt.Failure.{Envelope, reclaim_dead_worker, enums_valid}
use hermes_gpt.Failure.Ladder.{is_unobserved}
use hermes_gpt.Failure.Classify.{rule, breaker_open, decide, classify}

abbrev throttled : Envelope
throttled = record {
  delegation = record {
    state = "running";
    backend_state = "";
    outcome = "";
    validation_verdict = "";
  };
  runner = none;
  worker_exit = some "rate_limited";
  capability_ok = none;
  has_error_text = false;
  evidence = record {
    authority = false;
    transient = false;
    environment = false;
    semantic = false;
    capability = false;
  };
  node_state = "running";
  parent_done = true;
  all_children_terminal = false;
  replan_attempts_used = 0;
  mission_status = "running";
  final_approval_required = false;
  gave_up = false;
  limit = 3;
  consecutive_failures = 1;
}

throttled_retried : (classify throttled).auto_retry ≡ true
unfolding classify decide rule enums_valid breaker_open is_unobserved
throttled_retried = refl

-- The delegation may have been submitted, and the error text speaks of a quota.
abbrev dead : Envelope
dead = record throttled {
  delegation = record {
    state = "reconciling";
    backend_state = "ambiguous";
    outcome = "submission_may_have_succeeded";
    validation_verdict = "";
  };
  worker_exit = some "unknown";
  has_error_text = true;
  evidence = record {
    authority = true;
    transient = false;
    environment = false;
    semantic = false;
    capability = false;
  };
}

dead_retried : (classify dead).row_key ≡ reclaim_dead_worker
unfolding classify decide rule enums_valid breaker_open is_unobserved
dead_retried = refl
