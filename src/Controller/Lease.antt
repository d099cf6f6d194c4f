-- ===== src/Controller/Lease.antt =====
-- operator_controller.py: the table controller_pass_lease, acquire_lease, renew_lease, release_lease
-- and mark_recheck. A time is a number of microseconds: the ISO texts of the table, all in UTC,
-- compare as the times they write.
pub mod Exclusive
use hermes_gpt.Prelude.{
  ℕ, suc, ◌+◌, String, Bool, true, false, Option, none, some, List, [], ◌∷◌, ◌++◌, ◌==◌, ◌&&◌, eqb,
  ltb, leb, if◌then◌else◌,
}
use hermes_gpt.Prelude.Rows.{select, update, delete, count}

-- A row of controller_pass_lease.
pub record LeaseRow : Type 0 where
  pub mission_id : String
  pub lease_lock : String
  pub lease_expires : ℕ
  pub trigger_kind : String
  pub pass_seq : ℕ
  pub recheck_needed : Bool
  pub node_id : String
  pub heartbeat_at : ℕ
  pub created_at : ℕ
  pub updated_at : ℕ

-- The arguments of acquire_lease, and the clock: when the test is made, and when the expiry is set.
pub record Acquire : Type 0 where
  pub mission_id : String
  pub trigger_kind : String
  pub ttl : ℕ
  pub lease_lock : String
  pub node_id : String
  pub now : ℕ
  pub later : ℕ

-- What a pass learns of its request.
pub record Grant : Type 0 where
  pub acquired : Bool
  pub pass_seq : ℕ
  pub recheck : Bool
  pub reclaimed : Bool

abbrev pub lease_key : String → LeaseRow → Bool
lease_key m r = r.mission_id == m

-- `WHERE mission_id=? AND lease_expires < ?`
abbrev pub lapsed_key : String → ℕ → LeaseRow → Bool
lapsed_key m now r = r.mission_id == m && ltb r.lease_expires now

reclaimed_row : Acquire → LeaseRow → LeaseRow
reclaimed_row q r = record r {
  lease_lock = q.lease_lock;
  lease_expires = q.later + q.ttl;
  trigger_kind = q.trigger_kind;
  pass_seq = suc r.pass_seq;
  heartbeat_at = q.now;
  node_id = q.node_id;
  updated_at = q.now;
}

new_row : Acquire → LeaseRow
new_row q = record {
  mission_id = q.mission_id;
  lease_lock = q.lease_lock;
  lease_expires = q.later + q.ttl;
  trigger_kind = q.trigger_kind;
  pass_seq = 1;
  recheck_needed = false;
  node_id = q.node_id;
  heartbeat_at = q.now;
  created_at = q.now;
  updated_at = q.now;
}

-- _lease_seq
unfoldable pub lease_seq : List LeaseRow → String → ℕ
lease_seq rows m = elim (select (lease_key m) rows) [ none ↦ 0 | some r ↦ r.pass_seq ]

-- The guarded INSERT, which an existing row makes a no-op.
acquire_insert : Acquire → List LeaseRow → Option LeaseRow → Grant × List LeaseRow
unfolding new_row
acquire_insert q rows none = (
  record { acquired = true; pass_seq = 1; recheck = false; reclaimed = false },
  rows ++ new_row q ∷ [],
)
acquire_insert q rows (some holder) = (
  record { acquired = false; pass_seq = holder.pass_seq; recheck = true; reclaimed = false },
  rows,
)

acquire_reclaimed : Acquire → List LeaseRow → Grant × List LeaseRow
unfolding reclaimed_row
acquire_reclaimed q rows =
    let rows' = update (lapsed_key q.mission_id q.now) (reclaimed_row q) rows in
    (
      record {
        acquired = true;
        pass_seq = lease_seq rows' q.mission_id;
        recheck = false;
        reclaimed = true;
      },
      rows',
    )

-- acquire_lease
unfoldable pub acquire_lease : Acquire → List LeaseRow → Grant × List LeaseRow
unfolding acquire_insert acquire_reclaimed
acquire_lease q rows =
    if eqb (count (lapsed_key q.mission_id q.now) rows) 1
    then acquire_reclaimed q rows
    else acquire_insert q rows (select (lease_key q.mission_id) rows)

renewed_row : ℕ → ℕ → LeaseRow → LeaseRow
renewed_row now expiry r = record r { lease_expires = expiry; heartbeat_at = now; updated_at = now }

-- `WHERE mission_id=? AND lease_lock=? AND lease_expires >= ?`
abbrev held_key : String → String → ℕ → LeaseRow → Bool
held_key m lock now r = r.mission_id == m && (r.lease_lock == lock && leb now r.lease_expires)

-- renew_lease
unfoldable pub renew_lease : String → String → ℕ → ℕ → ℕ → List LeaseRow → Bool × List LeaseRow
unfolding renewed_row
renew_lease m lock ttl now later rows = (
  eqb (count (held_key m lock now) rows) 1,
  update (held_key m lock now) (renewed_row now (later + ttl)) rows,
)

abbrev lock_key : String → String → LeaseRow → Bool
lock_key m lock r = r.mission_id == m && r.lease_lock == lock

-- release_lease
unfoldable pub release_lease : String → String → List LeaseRow → Bool × List LeaseRow
release_lease m lock rows = (eqb (count (lock_key m lock) rows) 1, delete (lock_key m lock) rows)

-- `WHERE mission_id=? AND lease_expires >= ?`
abbrev live_key : String → ℕ → LeaseRow → Bool
live_key m now r = r.mission_id == m && leb now r.lease_expires

marked_row : ℕ → LeaseRow → LeaseRow
marked_row now r = record r { recheck_needed = true; updated_at = now }

-- mark_recheck
unfoldable pub mark_recheck : String → ℕ → List LeaseRow → Bool × List LeaseRow
unfolding marked_row
mark_recheck m now rows =
    (eqb (count (live_key m now) rows) 1, update (live_key m now) (marked_row now) rows)
