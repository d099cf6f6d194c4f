-- ===== src/Claims.antt =====
-- fabric_write_guard.py: the table write_claims of a peer (operator_fabric.py, _init_peer_db) and the
-- class WriteClaims. A statement of SQL runs alone: the callers hold an IMMEDIATE transaction.

pub mod Spec
pub mod Table
pub mod Refines
pub mod Fencing
use hermes_gpt.Prelude.{
  ℕ, zero, suc, ◌+◌, String, Bool, false, Option, none, some, List, [], ◌∷◌, ◌++◌, ◌==◌, ◌&&◌, ◌||◌,
  not, eqb, leb, if◌then◌else◌,
}
use hermes_gpt.Prelude.Result.{Result, Error, ok, err, fabric_error}
use hermes_gpt.Prelude.Rows.{select, update, delete, count}

-- A row of write_claims.
pub record ClaimRow : Type 0 where
  pub conflict_domain : String
  pub attempt_id : String
  pub state : String
  pub acquired_at : String
  pub released_at : Option String
  pub epoch : ℕ
  pub execution_unit_kind : Option String
  pub execution_unit_id : Option String
  pub release_proof : Option String

-- The columns of a row of attempts that WriteClaims reads.
pub record AttemptRow : Type 0 where
  pub conflict_domain : String
  pub attempt_id : String
  pub write_epoch : Option ℕ

-- What the callers pass to acquire, with the time that base._now() gives.
pub record Request : Type 0 where
  pub conflict_domain : String
  pub attempt_id : String
  pub unit_id : String
  pub now : String

-- `WHERE conflict_domain=?`
abbrev pub domain_key : String → ClaimRow → Bool
domain_key d r = r.conflict_domain == d

abbrev pub is_active : ClaimRow → Bool
is_active r = r.state == "ACTIVE"

abbrev pub next_epoch : Option ClaimRow → ℕ
next_epoch none = 1
next_epoch (some claim) = claim.epoch + 1

abbrev pub claimed_row : Request → ℕ → ClaimRow
claimed_row q epoch = record {
  conflict_domain = q.conflict_domain;
  attempt_id = q.attempt_id;
  state = "ACTIVE";
  acquired_at = q.now;
  released_at = none;
  epoch = epoch;
  execution_unit_kind = some "systemd-user-unit";
  execution_unit_id = some q.unit_id;
  release_proof = none;
}

-- INSERT OR REPLACE, by the primary key.
unfoldable pub insert_or_replace : ClaimRow → List ClaimRow → List ClaimRow
insert_or_replace r rows = delete (domain_key r.conflict_domain) rows ++ r ∷ []

unfoldable pub acquire_new : Request → List ClaimRow → Option ClaimRow → Result ℕ × List ClaimRow
acquire_new q rows claim =
    (ok (next_epoch claim), insert_or_replace (claimed_row q (next_epoch claim)) rows)

-- The test of the claim that acquire has read.
unfoldable pub acquire_over : Request → List ClaimRow → Option ClaimRow → Result ℕ × List ClaimRow
unfolding acquire_new
acquire_over q rows none = acquire_new q rows none
acquire_over q rows (some claim) =
    if is_active claim
    then (if claim.attempt_id == q.attempt_id
        then (ok claim.epoch, rows)
        else (err fabric_error, rows))
    else acquire_new q rows (some claim)

-- WriteClaims.acquire
unfoldable pub acquire : Request → List ClaimRow → Result ℕ × List ClaimRow
unfolding acquire_over
acquire q rows = acquire_over q rows (select (domain_key q.conflict_domain) rows)

abbrev pub claim_state : AttemptRow → ℕ → Option ClaimRow → String
claim_state a e none = "SUPERSEDED"
claim_state a e (some claim) =
    if not (claim.attempt_id == a.attempt_id) || not (eqb claim.epoch e)
    then "SUPERSEDED"
    else claim.state

abbrev pub state_of : AttemptRow → List ClaimRow → Option ℕ → String
state_of a rows none = "NONE"
state_of a rows (some e) = claim_state a e (select (domain_key a.conflict_domain) rows)

-- WriteClaims.state
unfoldable pub state : AttemptRow → List ClaimRow → String
state a rows = state_of a rows a.write_epoch

-- `text[:n]`
unfoldable pub cut : ℕ → String → String
cut zero s = String.[]
cut (suc n) String.[] = String.[]
cut (suc n) (String.◌∷◌ c s) = String.◌∷◌ c (cut n s)

abbrev pub released_row : String → String → ClaimRow → ClaimRow
released_row proof now r = record r {
  state = "RELEASED";
  released_at = some now;
  release_proof = some (cut 128 proof);
}

-- `WHERE conflict_domain=? AND attempt_id=? AND epoch=? AND state='ACTIVE'`
abbrev pub owned : AttemptRow → ℕ → ClaimRow → Bool
owned a e r = r.attempt_id == a.attempt_id && (eqb r.epoch e && is_active r)

abbrev pub owned_key : AttemptRow → ℕ → ClaimRow → Bool
owned_key a e r = domain_key a.conflict_domain r && owned a e r

unfoldable pub release_at :
    AttemptRow → String → String → List ClaimRow → Option ℕ → Bool × List ClaimRow
release_at a proof now rows none = (false, rows)
release_at a proof now rows (some e) =
    (leb 1 (count (owned_key a e) rows), update (owned_key a e) (released_row proof now) rows)

-- WriteClaims.release
unfoldable pub release : AttemptRow → String → String → List ClaimRow → Bool × List ClaimRow
unfolding release_at
release a proof now rows = release_at a proof now rows a.write_epoch
