-- ===== src/Controller/Lease/Exclusive.antt =====
-- A live lease keeps its holder, and a lapsed one does not block the next pass.
use mathlib.Core.Option
use hermes_gpt.Prelude.{
  ℕ, ◌+◌, ◌≤◌, ◌<◌, String, Bool, true, false, Option, none, some, List, [], ◌∷◌, ◌++◌, ◌≡◌, ◌≢◌,
  refl, sym, ap, ◌∙◌, inl, inr, ◌↔◌, arith, Bool-cases, Option-cases, eq_iff, ◌==◌, eqb, ltb,
  if◌then◌else◌,
}
use hermes_gpt.Prelude.Rows.{select, update, delete, count, select-update}
use hermes_gpt.Controller.Lease.{
  LeaseRow, Acquire, lease_key, lapsed_key, reclaimed_row, new_row, acquire_insert,
  acquire_reclaimed, acquire_lease, renewed_row, held_key, renew_lease, lock_key, release_lease,
  live_key, marked_row, mark_recheck,
}

-- The operations on leases, each with its clock.
pub data LeaseOp : Type 0 where
  acquiring : Acquire → LeaseOp
  renewing : String → String → ℕ → ℕ → ℕ → LeaseOp
  releasing : String → String → LeaseOp
  marking : String → ℕ → LeaseOp

abbrev pub lease_op : List LeaseRow → LeaseOp → List LeaseRow
lease_op rows (acquiring q) = (acquire_lease q rows).1
lease_op rows (renewing m lock ttl now later) = (renew_lease m lock ttl now later rows).1
lease_op rows (releasing m lock) = (release_lease m lock rows).1
lease_op rows (marking m now) = (mark_recheck m now rows).1

abbrev pub lease_ops : List LeaseRow → List LeaseOp → List LeaseRow
lease_ops rows [] = rows
lease_ops rows (o ∷ os) = lease_ops (lease_op rows o) os

-- An operation of another pass, made no later than the expiry.
abbrev pub Foreign : String → ℕ → LeaseOp → Type 0
Foreign lock expires (acquiring q) = q.now ≤ expires
Foreign lock expires (renewing m lock' ttl now later) = lock' ≢ lock
Foreign lock expires (releasing m lock') = lock' ≢ lock
Foreign lock expires (marking m now) = Unit

abbrev pub AllForeign : String → ℕ → List LeaseOp → Type 0
AllForeign lock expires [] = Unit
AllForeign lock expires (o ∷ os) = Foreign lock expires o × AllForeign lock expires os

-- The lease that a pass holds.
abbrev pub Holds : List LeaseRow → String → String → ℕ → Type 0
Holds rows m lock expires =
    (r : LeaseRow) × (select (lease_key m) rows ≡ some r)
    × (r.lease_lock ≡ lock)
    × (r.lease_expires ≡ expires)

select_kept :
    (m : String) (p : LeaseRow → Bool) (f : LeaseRow → LeaseRow) (rows : List LeaseRow)
    (r : LeaseRow)
    → ((x : LeaseRow) → (f x).mission_id ≡ x.mission_id)
    → select (lease_key m) rows ≡ some r
    → select (lease_key m) (update p f rows) ≡ some (if p r then f r else r)
select_kept m p f rows r key h =
    select-update (lease_key m) p f (λ x. ap (λ y. y == m) (key x)) rows ∙ ap (Option.map _) h

select_left :
    (m : String) (p : LeaseRow → Bool) (rows : List LeaseRow) (r : LeaseRow)
    → select (lease_key m) rows ≡ some r
    → p r ≡ false
    → select (lease_key m) (delete p rows) ≡ some r
unfolding select delete
select_left m p [] r h other = absurd cc
select_left m p (x ∷ rows) r h other = elim (Bool-cases (lease_key m x)) [
  | inl hit ↦
      (let same : x ≡ r = ground (arith, hit) in
        let stays : p x ≡ false = rw same other in ground (arith, stays, hit))
  | inr miss ↦ elim (Bool-cases (p x)) [
    | inl gone ↦ ground (arith, gone, select_left m p rows r (ground (arith, miss)) other)
    | inr stays ↦ ground (arith, stays, miss, select_left m p rows r (ground (arith, miss)) other)
  ]
]

select_appended :
    (m : String) (rows : List LeaseRow) (r b : LeaseRow)
    → select (lease_key m) rows ≡ some r
    → select (lease_key m) (rows ++ b ∷ []) ≡ some r
unfolding select
select_appended m [] r b h = absurd cc
select_appended m (x ∷ rows) r b h = ground (arith, select_appended m rows r b)

insert_keeps :
    (q : Acquire) (rows : List LeaseRow) (old : Option LeaseRow) (m : String) (r : LeaseRow)
    → select (lease_key m) rows ≡ some r
    → select (lease_key m) (acquire_insert q rows old).1 ≡ some r
unfolding acquire_insert
insert_keeps q rows none m r h = select_appended m rows r (new_row q) h
insert_keeps q rows (some holder) m r h = h

acquire_keeps :
    (q : Acquire) (rows : List LeaseRow) (m : String) (r : LeaseRow)
    → select (lease_key m) rows ≡ some r
    → q.now ≤ r.lease_expires
    → select (lease_key m) (acquire_lease q rows).1 ≡ some r
unfolding acquire_lease acquire_reclaimed
acquire_keeps q rows m r h early =
    elim (Bool-cases (eqb (count (lapsed_key q.mission_id q.now) rows) 1)) [
      | inr none_lapsed ↦
          rw none_lapsed (insert_keeps q rows (select (lease_key q.mission_id) rows) m r h)
      | inl lapsed ↦
          (let kept =
              select_kept m (lapsed_key q.mission_id q.now) (reclaimed_row q) rows r
                (λ x. unfold reclaimed_row in refl) h in
            let live : lapsed_key q.mission_id q.now r ≡ false = ground (arith, early) in
            rw lapsed (ground (arith, kept, live)))
    ]

op_keeps :
    (rows : List LeaseRow) (o : LeaseOp) (m lock : String) (expires : ℕ)
    → Foreign lock expires o
    → Holds rows m lock expires
    → Holds (lease_op rows o) m lock expires
op_keeps rows (acquiring q) m lock expires early (r, found, held, until) =
    (r, acquire_keeps q rows m r found (omega (arith, until, early)), held, until)
op_keeps rows (renewing m' lock' ttl now later) m lock expires other (r, found, held, until) =
    let kept =
      select_kept m (held_key m' lock' now) (renewed_row now (later + ttl)) rows r
        (λ x. unfold renewed_row in refl) found in
    let foreign : held_key m' lock' now r ≡ false =
      ground (arith, held, other, eq_iff r.lease_lock lock') in
    (r, unfold renew_lease in ground (arith, kept, foreign), held, until)
op_keeps rows (releasing m' lock') m lock expires other (r, found, held, until) =
    let foreign : lock_key m' lock' r ≡ false =
      ground (arith, held, other, eq_iff r.lease_lock lock') in
    (r, unfold release_lease in select_left m (lock_key m' lock') rows r found foreign, held, until)
op_keeps rows (marking m' now) m lock expires _ (r, found, held, until) =
    let kept =
      select_kept m (live_key m' now) (marked_row now) rows r (λ x. unfold marked_row in refl)
        found in
    (
      if live_key m' now r then marked_row now r else r,
      unfold mark_recheck in kept,
      unfold marked_row in ground (arith, held),
      unfold marked_row in ground (arith, until),
    )

-- A lease stays with its holder, lock and expiry, through any operations made no later than
-- the expiry: acquisitions of any mission, renewals and releases under other locks, and rechecks.
pub lease_ops-Holds :
    (rows : List LeaseRow) (os : List LeaseOp) (m lock : String) (expires : ℕ)
    → AllForeign lock expires os
    → Holds rows m lock expires
    → Holds (lease_ops rows os) m lock expires
lease_ops-Holds rows [] m lock expires _ h = h
lease_ops-Holds rows (o ∷ os) m lock expires (early, rest) h =
    lease_ops-Holds (lease_op rows o) os m lock expires rest
      (op_keeps rows o m lock expires early h)

-- The rows that a guarded UPDATE finds, where a mission has one row at most.
count_absent :
    (m : String) (now : ℕ) (rows : List LeaseRow)
    → select (lease_key m) rows ≡ none
    → count (lapsed_key m now) rows ≡ 0
unfolding select count
count_absent m now [] h = refl
count_absent m now (x ∷ rows) h = ground (arith, count_absent m now rows)

count_zero :
    (m : String) (now : ℕ) (rows : List LeaseRow)
    → count (lease_key m) rows ≡ 0
    → count (lapsed_key m now) rows ≡ 0
unfolding count
count_zero m now [] h = refl
count_zero m now (x ∷ rows) h = ground (arith, count_zero m now rows)

count_lapsed :
    (m : String) (now : ℕ) (rows : List LeaseRow) (r : LeaseRow)
    → count (lease_key m) rows ≤ 1
    → select (lease_key m) rows ≡ some r
    → count (lapsed_key m now) rows ≡ (if ltb r.lease_expires now then 1 else 0)
unfolding select count
count_lapsed m now [] r single h = absurd cc
count_lapsed m now (x ∷ rows) r single h = elim (Bool-cases (lease_key m x)) [
  | inl hit ↦
      (let same : x ≡ r = ground (arith, hit) in
        let rest : count (lapsed_key m now) rows ≡ 0 =
          count_zero m now rows (ground (arith, hit, single)) in
        rw (sym same) (ground (arith, hit, rest)))
  | inr miss ↦
      ground (
        arith,
        miss,
        count_lapsed m now rows r (ground (arith, miss, single)) (ground (arith, miss)),
      )
]

insert_acquired :
    (q : Acquire) (rows : List LeaseRow) (old : Option LeaseRow)
    → ((acquire_insert q rows old).0.acquired ≡ true) ↔ (old ≡ none)
unfolding acquire_insert
insert_acquired q rows none = (λ _. refl, λ _. refl)
insert_acquired q rows (some holder) = (λ h. absurd cc, λ h. absurd cc)

-- Where a mission has at most one row, acquire_lease grants the lease exactly when the mission has
-- none or its expiry has passed.
pub acquire_lease_iff :
    (q : Acquire) (rows : List LeaseRow)
    → count (lease_key q.mission_id) rows ≤ 1
    → ((acquire_lease q rows).0.acquired ≡ true)
      ↔ ((r : LeaseRow) → select (lease_key q.mission_id) rows ≡ some r → r.lease_expires < q.now)
unfolding acquire_lease acquire_reclaimed
acquire_lease_iff q rows single = elim (Option-cases (select (lease_key q.mission_id) rows)) [
  | inl absent ↦
      (let no_lapsed = count_absent q.mission_id q.now rows absent in
        let insert = insert_acquired q rows (select (lease_key q.mission_id) rows) in
        rw no_lapsed (λ _ r h. absurd (ground (arith, absent, h)), λ _. insert.1 absent))
  | inr (r, held) ↦
      (let lapsed = count_lapsed q.mission_id q.now rows r single held in
        let insert = insert_acquired q rows (select (lease_key q.mission_id) rows) in
        elim (Bool-cases (ltb r.lease_expires q.now)) [
          | inl past ↦ rw (lapsed, past) (λ _ x h. ground (arith, held, h, past), λ _. refl)
          | inr live ↦
              rw (lapsed, live)
                (
                  λ h. absurd (ground (arith, held, insert.0 h)),
                  λ all. absurd (ground (arith, live, all r held)),
                )
        ])
]
