-- ===== src/Examples/WriteClaims.antt =====
-- Three attempts that contend for one conflict domain.
use hermes_gpt.Prelude.{ℕ, ◌≡◌, ◌≢◌, ◌↔◌, refl, some, List, [], ◌∷◌, arith, eq_iff}
use hermes_gpt.Prelude.Rows.{select, count}
use hermes_gpt.Claims.{ClaimRow, AttemptRow, Request, acquire_new, acquire_over, acquire, state}
use hermes_gpt.Claims.Table.{locks, IsKeyed}
use hermes_gpt.Claims.Refines.{
  ClaimOp, acquiring, releasing, claim_ops, lock_ops, Agrees, claim_ops_refine,
}
use hermes_gpt.Claims.Fencing.{retired_stays, acquire_exclusive}

abbrev first_request : Request
first_request = record {
  conflict_domain = "repo";
  attempt_id = "att-1";
  unit_id = "unit-1";
  now = "t1";
}

abbrev second_request : Request
second_request = record {
  conflict_domain = "repo";
  attempt_id = "att-2";
  unit_id = "unit-2";
  now = "t2";
}

abbrev first_attempt : AttemptRow
first_attempt = record { conflict_domain = "repo"; attempt_id = "att-1"; write_epoch = some 1 }

abbrev second_attempt : AttemptRow
second_attempt = record { conflict_domain = "repo"; attempt_id = "att-2"; write_epoch = some 2 }

-- The second attempt is refused, waits for the release, and is then granted the next epoch.
abbrev contention : List ClaimOp
contention =
    acquiring first_request
    ∷ acquiring second_request
    ∷ releasing first_attempt "unit quiescent" "t3"
    ∷ acquiring second_request
    ∷ releasing first_attempt "unit quiescent" "t4"
    ∷ []

no_claims : IsKeyed []
unfolding count
no_claims d = omega arith

claim_ops_refine_example : Agrees (claim_ops [] contention) (lock_ops (locks []) contention)
claim_ops_refine_example = claim_ops_refine contention [] no_claims

abbrev released_claim : ClaimRow
released_claim = record {
  conflict_domain = "repo";
  attempt_id = "att-1";
  state = "RELEASED";
  acquired_at = "t1";
  released_at = some "t3";
  epoch = 1;
  execution_unit_kind = some "systemd-user-unit";
  execution_unit_id = some "unit-1";
  release_proof = some "unit quiescent";
}

one_claim : IsKeyed (released_claim ∷ [])
unfolding count
one_claim d = ground arith

released_idle : state first_attempt (released_claim ∷ []) ≢ "ACTIVE"
unfolding state select
released_idle h = ground (arith, h, eq_iff "RELEASED" "ACTIVE")

retired_stays_example :
    state first_attempt (claim_ops (released_claim ∷ []) contention).1 ≢ "ACTIVE"
unfolding select
retired_stays_example =
    retired_stays contention (released_claim ∷ []) first_attempt 1 one_claim refl (omega arith)
      released_idle

acquire_exclusive_example :
    (state second_attempt (acquire second_request (released_claim ∷ [])).1 ≡ "ACTIVE")
    ↔ ((second_attempt.attempt_id ≡ second_request.attempt_id) × ◌≡◌ {A = ℕ} 2 2)
unfolding acquire acquire_over acquire_new select
acquire_exclusive_example =
    acquire_exclusive second_request (released_claim ∷ []) 2 second_attempt 2 one_claim refl refl
      refl
