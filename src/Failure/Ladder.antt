-- ===== src/Failure/Ladder.antt =====
-- operator_failure_semantics.py: the steps of the ladder of classify, each with its test.
use hermes_gpt.Prelude.{
  String, Bool, true, false, Option, none, some, [], ◌∷◌, ◌==◌, ◌&&◌, ◌||◌, not, ltb, if◌then◌else◌,
}
use hermes_gpt.Failure.{
  authority, transient, environment, capability, Envelope, Ruling, one_of, enums_valid, ruling,
  when, waiting, semantic_failure, ambiguous, cancelled, unknown, none_dispatchable, none_approval,
  none_completion, reclaim_dead_worker, fail_closed_evidence,
}

-- `worker_exit is not None and worker_exit["kind"] == kind`
abbrev pub exits_with : Envelope → String → Bool
exits_with e kind = elim e.worker_exit [ none ↦ false | some k ↦ k == kind ]

runner_failed : Envelope → Bool
runner_failed e = elim e.runner [ none ↦ false | some r ↦ r.0 == "failed" ]

-- The steps of the ladder, in its order, each after its test.
abbrev pub is_cancelled : Envelope → Bool
is_cancelled e =
    e.delegation.state == "cancelled"
    || (e.node_state == "cancelled"
        || one_of ("paused" ∷ "blocked" ∷ []) e.mission_status && e.node_state == "")

unfoldable pub terminal_step : Envelope → Option Ruling
unfolding when
terminal_step e = when (is_cancelled e) (ruling cancelled)

unfoldable pub has_channel : Envelope → Bool
has_channel e =
    elim e.runner [ none ↦ false | some _ ↦ true ]
    || (elim e.worker_exit [ none ↦ false | some _ ↦ true ] || not (e.delegation.state == ""))

unfoldable pub runner_error : Envelope → Bool
runner_error e = elim e.runner [ none ↦ false | some r ↦ r.1 ]

unfoldable pub is_unobserved : Envelope → Bool
unfolding has_channel runner_error
is_unobserved e =
    (one_of ("queued" ∷ "running" ∷ "reconciling" ∷ []) e.delegation.state
        || one_of ("dispatched" ∷ "running" ∷ []) e.node_state)
      && not (has_channel e)
    || exits_with e "nonzero_exit" && (not e.has_error_text && not (runner_error e))

unfoldable pub missing_step : Envelope → Option Ruling
unfolding when
missing_step e = when (is_unobserved e) (ruling unknown)

-- the test of the reclaim of a dead worker
abbrev pub worker_dead : Envelope → Bool
worker_dead e = e.node_state == "running" && exits_with e "unknown"

unfoldable pub reclaim_step : Envelope → Option Ruling
unfolding when
reclaim_step e =
    when (worker_dead e)
      (record { class = transient; row_override = some reclaim_dead_worker; replan = false })

-- the test of an ambiguous outcome
abbrev pub is_ambiguous : Envelope → Bool
is_ambiguous e =
    e.delegation.state == "reconciling"
    || (e.delegation.backend_state == "ambiguous"
        || e.delegation.outcome == "submission_may_have_succeeded")

abbrev pub lacks_capability : Envelope → Bool
lacks_capability e =
    elim e.capability_ok [ none ↦ false | some ok ↦ not ok ] || e.evidence.capability

abbrev pub is_semantic : Envelope → Bool
is_semantic e =
    one_of ("NOT_SATISFIED" ∷ "INVALID_CONTRACT" ∷ []) e.delegation.validation_verdict
    || (e.evidence.semantic || exits_with e "clean_exit")

unfoldable pub semantic_step : Envelope → Option Ruling
unfolding when
semantic_step e = when (is_semantic e) (record {
  class = semantic_failure;
  row_override = none;
  replan = ltb e.replan_attempts_used 1;
})

abbrev pub has_transient_flavor : Envelope → Bool
has_transient_flavor e =
    exits_with e "rate_limited" || (exits_with e "signaled" || e.evidence.transient)

unfoldable pub transient_step : Envelope → Option Ruling
unfolding when
transient_step e = when (has_transient_flavor e) (ruling transient)

-- the steps that fail closed before any success
unfoldable pub unflavored_step : Envelope → Option Ruling
unfolding when runner_failed
unflavored_step e =
    when
      (runner_failed e
        || (e.delegation.state == "failed" || e.node_state == "failed" && e.delegation.state == ""))
      (ruling unknown)

abbrev pub fail_closed : Ruling
fail_closed = record { class = unknown; row_override = some fail_closed_evidence; replan = false }

unfoldable pub inconclusive_step : Envelope → Option Ruling
unfolding when
inconclusive_step e = when (e.delegation.validation_verdict == "INCONCLUSIVE") fail_closed

unfoldable pub waiting_step : Envelope → Option Ruling
unfolding when
waiting_step e =
    when
      (e.mission_status == "awaiting_approval"
        || (not (e.node_state == "")
              && (not e.all_children_terminal
                  && (e.node_state == "pending" && not e.parent_done
                      || one_of ("dispatched" ∷ "running" ∷ "awaiting_review" ∷ "validated" ∷ [])
                          e.node_state))
            || one_of ("queued" ∷ "running" ∷ "reserved" ∷ []) e.delegation.state))
      (ruling waiting)

unfoldable pub unverified_step : Envelope → Option Ruling
unfolding when
unverified_step e =
    when
      (e.all_children_terminal
        && (e.delegation.validation_verdict == "" && e.delegation.state == "succeeded"))
      fail_closed

unfoldable pub completion_step : Envelope → Option Ruling
unfolding when
completion_step e =
    when e.all_children_terminal
      (ruling (if e.final_approval_required then none_approval else none_completion))

unfoldable pub dispatch_step : Envelope → Option Ruling
unfolding when
dispatch_step e =
    when
      (one_of ("pending" ∷ "blockable" ∷ []) e.node_state
        && (e.parent_done && e.mission_status == "running"))
      (ruling none_dispatchable)

unfoldable pub invalid_step : Envelope → Option Ruling
unfolding when
invalid_step e = when (not (enums_valid e)) (ruling unknown)

unfoldable pub ambiguous_step : Envelope → Option Ruling
unfolding when
ambiguous_step e = when (is_ambiguous e) (ruling ambiguous)

unfoldable pub authority_step : Envelope → Option Ruling
unfolding when
authority_step e = when e.evidence.authority (ruling authority)

unfoldable pub capability_step : Envelope → Option Ruling
unfolding when
capability_step e = when (lacks_capability e) (ruling capability)

unfoldable pub environment_step : Envelope → Option Ruling
unfolding when
environment_step e = when e.evidence.environment (ruling environment)
