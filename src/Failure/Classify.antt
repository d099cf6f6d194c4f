-- ===== src/Failure/Classify.antt =====
-- operator_failure_semantics.py: classify, the first step that decides and what follows from it.
use hermes_gpt.Prelude.{
  Bool, true, false, Option, none, some, List, [], ◌∷◌, ◌&&◌, ◌||◌, not, leb, ltb, if◌then◌else◌,
}
use hermes_gpt.Failure.{
  Class, Row, class_to_row, row_retries, authority, transient, environment, capability, Envelope,
  Ruling, Decision, ruling, unknown, no_failure, breaker_exhausted, fail_closed_evidence,
}
use hermes_gpt.Failure.Ladder.{
  terminal_step, missing_step, reclaim_step, semantic_step, transient_step, unflavored_step,
  inconclusive_step, waiting_step, unverified_step, completion_step, dispatch_step, invalid_step,
  ambiguous_step, authority_step, capability_step, environment_step,
}

-- The first step that decides.
unfoldable pub first_of : List (Option Ruling) → Ruling
first_of [] = ruling no_failure
first_of (none ∷ steps) = first_of steps
first_of (some r ∷ steps) = r

-- The steps up to the transient flavor, and those after it.
unfoldable pub late_steps : Envelope → List (Option Ruling)
unfolding unflavored_step inconclusive_step waiting_step unverified_step completion_step
    dispatch_step
late_steps e =
    unflavored_step e
    ∷ inconclusive_step e
    ∷ waiting_step e
    ∷ unverified_step e
    ∷ completion_step e
    ∷ dispatch_step e
    ∷ []

unfoldable pub rule : Envelope → Ruling
unfolding invalid_step terminal_step missing_step reclaim_step ambiguous_step authority_step
    capability_step environment_step semantic_step transient_step late_steps first_of
rule e = first_of (
    invalid_step e
    ∷ terminal_step e
    ∷ missing_step e
    ∷ reclaim_step e
    ∷ ambiguous_step e
    ∷ authority_step e
    ∷ capability_step e
    ∷ environment_step e
    ∷ semantic_step e
    ∷ transient_step e
    ∷ late_steps e)

unfoldable pub breaker_open : Envelope → Bool
breaker_open e = e.gave_up || ltb 0 e.limit && leb e.limit e.consecutive_failures

unfoldable pub is_transient : Class → Bool
is_transient transient = true
is_transient _ = false

unfoldable pub row_of : Ruling → Bool → Row
unfolding class_to_row is_transient
row_of r open_breaker =
    if is_transient r.class && open_breaker
    then breaker_exhausted
    else elim r.row_override [ none ↦ class_to_row r.class | some row ↦ row ]

unfoldable pub class_attention : Class → Bool
class_attention unknown = true
class_attention authority = true
class_attention capability = true
class_attention environment = true
class_attention _ = false

unfoldable pub row_attention : Row → Bool
row_attention breaker_exhausted = true
row_attention fail_closed_evidence = true
row_attention _ = false

-- the nested decide
unfoldable pub decide : Envelope → Ruling → Decision
unfolding row_of row_retries class_attention row_attention
decide e r = record {
  classification = r.class;
  row_key = row_of r (breaker_open e);
  auto_retry = row_retries (row_of r (breaker_open e)) && not (breaker_open e);
  need_attention = class_attention r.class || row_attention (row_of r (breaker_open e));
  breaker_open = breaker_open e;
  replan = r.replan;
}

-- classify
unfoldable pub classify : Envelope → Decision
classify e = decide e (rule e)
