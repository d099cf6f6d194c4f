-- ===== src/Delegations/Cancel.antt =====
-- operator_delegations.py: hermes_delegation_cancel after the gates of the policy, in the same kind
-- of steps as Dispatch.
use hermes_gpt.Prelude.{
  ℕ, suc, String, Bool, true, false, not, Option, none, some, List, ◌==◌, ◌&&◌, ◌||◌, eqb,
  if◌then◌else◌,
}
use hermes_gpt.Prelude.Rows.{select, update}
use hermes_gpt.Prelude.Result.{Error, value_error, lookup_error}
use hermes_gpt.Delegations.{
  reserved, reconciling, cancelled, same_state, same_phase, same_verdict, is_terminal, same_time,
  same_flag, Row, Texts, id_key, one_changed,
}

-- `dry` is `policy.effective_dry_run(dry_run)`.
pub record Request : Type 0 where
  pub delegation_id : String
  pub confirm : Bool
  pub dry : Bool

-- What hermes_runner_cancel answers; `changed` is `none` where the answer has no such member.
pub record RunnerReply : Type 0 where
  pub success : Bool
  pub changed : Option Bool
  pub state : String

-- The inputs of a step: the clock, whether the mission of the row can be read and is not completed,
-- the digest of the latest observation, and what the runner answers, `none` where it raises.
pub record Input : Type 0 where
  pub now : ℕ
  pub texts : Texts
  pub mission_open : Bool
  pub observation_sha256 : String
  pub reply : Option RunnerReply

pub data Reply : Type 0 where
  refused : Error → Reply
  unchanged dry_run confirmation_required reserved_cas_lost : Reply
  cancellation_in_progress dispatched_cas_lost runner_rejected runner_ambiguous : Reply
  row_changed : Reply

-- Where a call stands: with the row as it was last read, whether a cancellation had been
-- requested before, and the state that the runner gives.
pub data Place : Type 0 where
  reading cancelling_reserved claiming : Place
  rereading : Bool → Place
  marking calling : Row → Bool → Place
  returning : Row → Bool → Place
  finishing : Row → String → Place
  done : Reply → Place

abbrev pub read_row : Request → Row → Place
read_row q r =
    if is_terminal r.state
    then done unchanged
    else if q.dry
    then done dry_run
    else if not q.confirm
    then done confirmation_required
    else if same_phase r.dispatch_phase reserved
    then cancelling_reserved
    else claiming

abbrev pub read_found : Request → Option Row → Place
read_found q none = done (refused lookup_error)
read_found q (some r) = read_row q r

-- The first read, with the returns that write nothing.
unfoldable pub read : Request → List Row → Place
read q rows = read_found q (select (id_key q.delegation_id) rows)

-- `WHERE delegation_id=? AND dispatch_phase='reserved' AND state='reserved' AND cancel_requested=0`
abbrev pub reserved_key : String → Row → Bool
reserved_key d r =
    id_key d r
    && (same_phase r.dispatch_phase reserved
        && (same_state r.state reserved && not r.cancel_requested))

abbrev pub cancelled_reserved : ℕ → Row → Row
cancelled_reserved now r = record r {
  state = cancelled;
  backend_state = "not_invoked";
  outcome = "cancelled";
  cancel_requested = true;
  cancellation_in_progress = false;
  authority_version = suc r.authority_version;
  dispatch_phase = cancelled;
  updated_at = now;
  terminal_at = some now;
}

unfoldable pub cancel_reserved : String → ℕ → List Row → List Row × Place
cancel_reserved d now rows = (
  update (reserved_key d) (cancelled_reserved now) rows,
  done (if one_changed (reserved_key d) rows then row_changed else reserved_cas_lost),
)

-- `WHERE delegation_id=? AND state NOT IN (...) AND cancellation_in_progress=0`
abbrev pub cancellable_key : String → Row → Bool
cancellable_key d r = id_key d r && (not (is_terminal r.state) && not r.cancellation_in_progress)

abbrev pub claimed : ℕ → Row → Row
claimed now r = record r {
  cancel_requested = true;
  cancellation_in_progress = true;
  cancellation_claimed_at = some now;
  cancellation_observation_sha256 = "";
  cancellation_watermark_ready = false;
  authority_version = suc r.authority_version;
  updated_at = now;
}

abbrev pub claim_lost : Row → Place
claim_lost r =
    if r.cancellation_in_progress && (r.cancel_requested && not (is_terminal r.state))
    then done cancellation_in_progress
    else done dispatched_cas_lost

abbrev pub claim_row : Request → Input → Row → List Row → List Row × Place
claim_row q i r rows =
    if is_terminal r.state
    then (rows, done unchanged)
    else if not (r.mission_id == "") && not i.mission_open
    then (rows, done (refused value_error))
    else if one_changed (cancellable_key q.delegation_id) rows
    then (
      update (cancellable_key q.delegation_id) (claimed i.now) rows,
      rereading r.cancel_requested,
    )
    else (rows, claim_lost r)

abbrev pub claim_found : Request → Input → List Row → Option Row → List Row × Place
claim_found q i rows none = (rows, done (refused lookup_error))
claim_found q i rows (some r) = claim_row q i r rows

-- The claim of the cancellation, a transaction that ends before the row is read again.
unfoldable pub claim : Request → Input → List Row → List Row × Place
claim q i rows = claim_found q i rows (select (id_key q.delegation_id) rows)

abbrev pub reread_found : Bool → Option Row → Place
reread_found prior none = done (refused lookup_error)
reread_found prior (some r) = marking r prior

-- The read after the claim has been committed.
unfoldable pub reread : String → Bool → List Row → Place
reread d prior rows = reread_found prior (select (id_key d) rows)

abbrev pub unmarked : Row → Row → Bool
unmarked stored r =
    (r.cancellation_in_progress && eqb r.authority_version stored.authority_version)
    && (same_time r.cancellation_claimed_at stored.cancellation_claimed_at
        && not r.cancellation_watermark_ready)

-- `WHERE delegation_id=? AND cancellation_in_progress=1 AND authority_version=? AND
-- cancellation_claimed_at=? AND cancellation_watermark_ready=0`
abbrev pub marking_key : String → Row → Row → Bool
marking_key d stored r = id_key d r && unmarked stored r

abbrev pub marked : Input → Row → Row
marked i r = record r {
  cancellation_observation_sha256 = i.observation_sha256;
  cancellation_watermark_ready = true;
  updated_at = i.now;
}

abbrev pub mark_lost : Row → Place
mark_lost r =
    done (if r.cancellation_in_progress then cancellation_in_progress else dispatched_cas_lost)

abbrev pub mark_found : String → Input → Row → Bool → List Row → Option Row → List Row × Place
mark_found d i stored prior rows none = (rows, done (refused lookup_error))
mark_found d i stored prior rows (some r) =
    if one_changed (marking_key d stored) rows
    then (update (marking_key d stored) (marked i) rows, calling (marked i r) prior)
    else (rows, mark_lost r)

-- The watermark.
unfoldable pub mark : String → Input → Row → Bool → List Row → List Row × Place
mark d i stored prior rows = mark_found d i stored prior rows (select (id_key d) rows)

-- `result.get("changed") is False`
abbrev pub is_unchanged : Option Bool → Bool
is_unchanged none = false
is_unchanged (some changed) = not changed

-- The call of the runner, which may raise.
unfoldable pub call_runner : Row → Bool → Option RunnerReply → Place
call_runner stored prior none = done (refused value_error)
call_runner stored prior (some b) =
    if b.success
    then finishing stored b.state
    else if is_unchanged b.changed
    then returning stored prior
    else done runner_ambiguous

-- `authority_fields`
abbrev pub same_authority : Row → Row → Bool
same_authority r s =
    (same_state r.state s.state
      && (same_phase r.dispatch_phase s.dispatch_phase
          && (same_flag r.cancel_requested s.cancel_requested
              && same_flag r.cancellation_in_progress s.cancellation_in_progress)))
    && (((r.mission_id == s.mission_id && r.task_id == s.task_id)
          && (r.contract_sha256 == s.contract_sha256 && r.backend == s.backend))
        && (((r.backend_state == s.backend_state && r.outcome == s.outcome)
              && (same_verdict r.validation_verdict s.validation_verdict
                  && eqb r.authority_version s.authority_version))
            && ((same_time r.cancellation_claimed_at s.cancellation_claimed_at
                  && (r.cancellation_observation_sha256 == s.cancellation_observation_sha256
                      && same_flag r.cancellation_watermark_ready s.cancellation_watermark_ready))
                && (same_time r.dispatched_at s.dispatched_at
                    && (eqb r.updated_at s.updated_at && same_time r.terminal_at s.terminal_at)))))

abbrev pub returned : Bool → ℕ → Row → Row
returned prior now r = record r {
  cancel_requested = prior;
  cancellation_in_progress = false;
  authority_version = suc r.authority_version;
  updated_at = now;
}

abbrev pub return_found : String → ℕ → Row → Bool → List Row → Option Row → List Row × Place
return_found d now stored prior rows none = (rows, done (refused lookup_error))
return_found d now stored prior rows (some r) = (
  (if same_authority r stored then update (id_key d) (returned prior now) rows else rows),
  done runner_rejected,
)

-- The return of the latch when the runner has rejected the cancellation.
unfoldable pub return_latch : String → ℕ → Row → Bool → List Row → List Row × Place
return_latch d now stored prior rows = return_found d now stored prior rows (select (id_key d) rows)

-- Finality needs an explicit confirmation.
abbrev pub is_confirmed : Texts → String → Bool
is_confirmed t s = t.normal s == "cancelled" || t.normal s == "canceled"

-- `immutable_lineage`
abbrev pub same_lineage : Row → Row → Bool
same_lineage r s =
    ((r.mission_id == s.mission_id && r.task_id == s.task_id)
      && (r.contract_sha256 == s.contract_sha256 && r.backend == s.backend))
    && same_time r.dispatched_at s.dispatched_at

abbrev pub can_promote : Bool → Row → Row → Bool
can_promote confirmed r stored =
    confirmed
    && (same_lineage r stored
        && (not (is_terminal r.state)
            && (r.cancel_requested && same_phase r.dispatch_phase stored.dispatch_phase)))

abbrev pub or_time : Option ℕ → ℕ → Option ℕ
or_time none now = some now
or_time (some t) now = some t

abbrev pub promoted : Input → String → Row → Row
promoted i s r = record r {
  state = cancelled;
  backend_state = i.texts.bounded s;
  outcome = "cancelled";
  cancel_requested = true;
  cancellation_in_progress = false;
  dispatch_phase = cancelled;
  updated_at = i.now;
  terminal_at = or_time r.terminal_at i.now;
}

abbrev pub finished : Input → Row → String → Row → Row
finished i stored s r =
    let confirmed = is_confirmed i.texts s in
    record r {
      state = (if confirmed then cancelled else reconciling);
      backend_state = i.texts.bounded s;
      outcome = (if confirmed then "cancelled" else "");
      cancel_requested = true;
      cancellation_in_progress = not confirmed;
      dispatch_phase = (if confirmed then cancelled else stored.dispatch_phase);
      updated_at = i.now;
      terminal_at = (if confirmed then some i.now else none);
    }

abbrev pub finish_found : String → Input → Row → String → List Row → Option Row → List Row × Place
finish_found d i stored s rows none = (rows, done (refused lookup_error))
finish_found d i stored s rows (some r) =
    if same_authority r stored
    then (update (id_key d) (finished i stored s) rows, done row_changed)
    else if can_promote (is_confirmed i.texts s) r stored
    then (update (id_key d) (promoted i s) rows, done row_changed)
    else (rows, done dispatched_cas_lost)

-- The last transaction.
unfoldable pub finish : String → Input → Row → String → List Row → List Row × Place
finish d i stored s rows = finish_found d i stored s rows (select (id_key d) rows)

-- One step of a call.
unfoldable pub cancel_step : Request → Input → List Row → Place → List Row × Place
unfolding cancel_reserved claim mark return_latch finish
cancel_step q i rows reading = (rows, read q rows)
cancel_step q i rows cancelling_reserved = cancel_reserved q.delegation_id i.now rows
cancel_step q i rows claiming = claim q i rows
cancel_step q i rows (rereading prior) = (rows, reread q.delegation_id prior rows)
cancel_step q i rows (marking stored prior) = mark q.delegation_id i stored prior rows
cancel_step q i rows (calling stored prior) = (rows, call_runner stored prior i.reply)
cancel_step q i rows (returning stored prior) = return_latch q.delegation_id i.now stored prior rows
cancel_step q i rows (finishing stored s) = finish q.delegation_id i stored s rows
cancel_step q i rows (done r) = (rows, done r)
