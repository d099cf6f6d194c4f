-- ===== src/Claims/Fencing.antt =====
-- An epoch that has lost its claim has lost it for good, and a grant makes every other one inactive.
use mathlib.Core.Option
use mathlib.Core.Path.{subst}
use hermes_gpt.Prelude.{
  ℕ, ◌+◌, ◌≤◌, String, Bool, true, false, Option, none, some, List, [], ◌∷◌, ◌≡◌, ◌≢◌, ◌↔◌, refl,
  sym, ap, ◌∙◌, arith, ◌==◌, eqb, eq_iff, eq_refl, Bool-cases, inl, inr,
}
use hermes_gpt.Prelude.Result.{Result, Error, ok, err}
use hermes_gpt.Prelude.Rows.{select}
use hermes_gpt.Claims.{ClaimRow, AttemptRow, Request, domain_key, acquire, claim_state, state}
use hermes_gpt.Claims.Spec.{Tenure, Locks, set, take_at, mine, free_at}
use hermes_gpt.Claims.Table.{tenure, locks, IsKeyed}
use hermes_gpt.Claims.Refines.{
  ClaimOp, acquiring, releasing, claim_ops, lock_op, lock_ops, free_epoch, claim_ops_refine,
  acquire-Agrees,
}

abbrev active : AttemptRow → ℕ → Option Tenure → Bool
active a e none = false
active a e (some t) = mine a.attempt_id e t

-- WriteClaims.state says ACTIVE for the epoch exactly where the lock of the domain does.
claim_state_iff :
    (a : AttemptRow) (e : ℕ) (claim : Option ClaimRow)
    → (claim_state a e claim == "ACTIVE") ≡ active a e (Option.map tenure claim)
claim_state_iff a e none = refl
claim_state_iff a e (some r) = elim (Bool-cases (r.attempt_id == a.attempt_id)) [
  | inr h ↦ rw (h) refl
  | inl h ↦ elim (Bool-cases (eqb r.epoch e)) [
    | inr h' ↦ rw (h, h') refl
    | inl h' ↦ rw (h, h') refl
  ]
]

-- The number of the last tenure.
abbrev pub last : Option Tenure → ℕ
last none = 0
last (some t) = t.number

-- The epoch has been given out, and is not active.
abbrev pub Retired : AttemptRow → ℕ → Option Tenure → Type 0
Retired a e t = (e ≤ last t) × (active a e t ≡ false)

set-Retired :
    (l : Locks) (d : String) (t : Tenure) (a : AttemptRow) (e : ℕ)
    → Retired a e (l a.conflict_domain)
    → (d ≡ a.conflict_domain → Retired a e (some t))
    → Retired a e (set l d t a.conflict_domain)
set-Retired l d t a e r new = elim (Bool-cases (d == a.conflict_domain)) [
  | inl h ↦ rw (h) (new ((eq_iff d a.conflict_domain).0 h))
  | inr h ↦ rw (h) r
]

at_domain :
    (l : Locks) (d : String) (t : Option Tenure) (a : AttemptRow) (e : ℕ)
    → l d ≡ t
    → Retired a e (l a.conflict_domain)
    → d ≡ a.conflict_domain
    → Retired a e t
at_domain l d t a e found r same = subst (Retired a e) (ap l (sym same) ∙ found) r

take-Retired :
    (l : Locks) (d h : String) (t : Option Tenure) (a : AttemptRow) (e : ℕ)
    → l d ≡ t
    → Retired a e (l a.conflict_domain)
    → Retired a e ((take_at l d h t).1 a.conflict_domain)
take-Retired l d h none a e found r =
    set-Retired l d (record { holder = h; number = 1; state = "ACTIVE" }) a e r
      (λ same. ground (arith, at_domain l d none a e found r same))
take-Retired l d h (some t) a e found r = elim (Bool-cases (t.state == "ACTIVE")) [
  | inl on ↦ elim (Bool-cases (t.holder == h)) [
    | inl own ↦ rw (on, own) r
    | inr other ↦ rw (on, other) r
  ]
  | inr off ↦ rw (off) (
      set-Retired l d (record { holder = h; number = t.number + 1; state = "ACTIVE" }) a e r
        (λ same. ground (arith, at_domain l d (some t) a e found r same)))
]

free-Retired :
    (l : Locks) (d h : String) (n : ℕ) (t : Option Tenure) (a : AttemptRow) (e : ℕ)
    → l d ≡ t
    → Retired a e (l a.conflict_domain)
    → Retired a e ((free_at l d h n t).1 a.conflict_domain)
free-Retired l d h n none a e found r = r
free-Retired l d h n (some t) a e found r = elim (Bool-cases (mine h n t)) [
  | inr other ↦ rw (other) r
  | inl own ↦ rw (own) (
      set-Retired l d (record t { state = "RELEASED" }) a e r
        (λ same. ground (arith, at_domain l d (some t) a e found r same)))
]

free_epoch-Retired :
    (l : Locks) (d h : String) (n : Option ℕ) (a : AttemptRow) (e : ℕ)
    → Retired a e (l a.conflict_domain)
    → Retired a e ((free_epoch l d h n).1 a.conflict_domain)
free_epoch-Retired l d h none a e r = r
free_epoch-Retired l d h (some n) a e r = free-Retired l d h n (l d) a e refl r

lock_op-Retired :
    (o : ClaimOp) (l : Locks) (a : AttemptRow) (e : ℕ)
    → Retired a e (l a.conflict_domain)
    → Retired a e ((lock_op l o).1 a.conflict_domain)
lock_op-Retired (acquiring q) l a e r =
    take-Retired l q.conflict_domain q.attempt_id (l q.conflict_domain) a e refl r
lock_op-Retired (releasing b proof now) l a e r =
    free_epoch-Retired l b.conflict_domain b.attempt_id b.write_epoch a e r

lock_ops-Retired :
    (os : List ClaimOp) (l : Locks) (a : AttemptRow) (e : ℕ)
    → Retired a e (l a.conflict_domain)
    → Retired a e ((lock_ops l os).1 a.conflict_domain)
lock_ops-Retired [] l a e r = r
lock_ops-Retired (o ∷ os) l a e r =
    lock_ops-Retired os (lock_op l o).1 a e (lock_op-Retired o l a e r)

-- The number of the last claim of a domain in the table, 0 where it has none.
abbrev pub last_epoch : List ClaimRow → String → ℕ
last_epoch rows d = last (locks rows d)

state_iff :
    (a : AttemptRow) (e : ℕ) (rows : List ClaimRow)
    → a.write_epoch ≡ some e
    → (state a rows == "ACTIVE") ≡ active a e (locks rows a.conflict_domain)
unfolding state
state_iff a e rows epoch =
    rw (epoch) (claim_state_iff a e (select (domain_key a.conflict_domain) rows))

idle_inactive :
    (a : AttemptRow) (e : ℕ) (rows : List ClaimRow)
    → a.write_epoch ≡ some e
    → state a rows ≢ "ACTIVE"
    → active a e (locks rows a.conflict_domain) ≡ false
idle_inactive a e rows epoch idle = elim (Bool-cases (active a e (locks rows a.conflict_domain))) [
  | inr h ↦ h
  | inl h ↦ absurd (idle ((eq_iff (state a rows) "ACTIVE").0 (state_iff a e rows epoch ∙ h)))
]

on_active :
    (a : AttemptRow) (e : ℕ) (rows : List ClaimRow)
    → a.write_epoch ≡ some e
    → state a rows ≡ "ACTIVE"
    → active a e (locks rows a.conflict_domain) ≡ true
on_active a e rows epoch on = sym (state_iff a e rows epoch) ∙ (eq_iff (state a rows) "ACTIVE").1 on

err_not_ok : {e : Error} {n : ℕ} → ◌≡◌ {A = Result ℕ} (err e) (ok n) → ⊥
err_not_ok h = cc

true_not_false : true ≡ false → ⊥
true_not_false h = cc

granted_mine :
    (l : Locks) (d h : String) (m n : ℕ) (a : AttemptRow) (e : ℕ)
    → ok m ≡ ok n
    → active a e (set l d (record { holder = h; number = m; state = "ACTIVE" }) d) ≡ true
    → (a.attempt_id ≡ h) × (e ≡ n)
granted_mine l d h m n a e same on =
    (ground (arith, eq_refl d, eq_iff h a.attempt_id), ground (arith, eq_refl d))

held_mine :
    (t : Tenure) (a : AttemptRow) (h : String) (n e : ℕ)
    → (t.holder == h) ≡ true
    → ok t.number ≡ ok n
    → mine a.attempt_id e t ≡ true
    → (a.attempt_id ≡ h) × (e ≡ n)
held_mine t a h n e own same on =
    (ground (arith, eq_iff t.holder a.attempt_id, eq_iff t.holder h), ground arith)

take_exclusive :
    (l : Locks) (d h : String) (t : Option Tenure) (n : ℕ) (a : AttemptRow) (e : ℕ)
    → l d ≡ t
    → (take_at l d h t).0 ≡ ok n
    → active a e ((take_at l d h t).1 d) ≡ true
    → (a.attempt_id ≡ h) × (e ≡ n)
take_exclusive l d h none n a e found granted on = granted_mine l d h 1 n a e granted on
take_exclusive l d h (some t) n a e found granted on = elim (Bool-cases (t.state == "ACTIVE")) [
  | inl up ↦ elim (Bool-cases (t.holder == h)) [
    | inl own ↦ held_mine t a h n e own (rw (up, own) at granted) (rw (up, own, found) at on)
    | inr other ↦ absurd (err_not_ok (rw (up, other) at granted))
  ]
  | inr off ↦ granted_mine l d h (t.number + 1) n a e (rw (off) at granted) (rw (off) at on)
]

given_mine :
    (l : Locks) (d h : String) (m n : ℕ) (a : AttemptRow) (e : ℕ)
    → ◌≡◌ {A = Result ℕ} (ok m) (ok n)
    → a.attempt_id ≡ h
    → e ≡ n
    → active a e (set l d (record { holder = h; number = m; state = "ACTIVE" }) d) ≡ true
given_mine l d h m n a e same own number = ground (arith, eq_refl d, eq_iff h a.attempt_id, sym own)

-- A granted lock is active for who asked, at the number that was returned.
take_grants :
    (l : Locks) (d h : String) (t : Option Tenure) (n : ℕ) (a : AttemptRow) (e : ℕ)
    → l d ≡ t
    → (take_at l d h t).0 ≡ ok n
    → a.attempt_id ≡ h
    → e ≡ n
    → active a e ((take_at l d h t).1 d) ≡ true
take_grants l d h none n a e found granted own number = given_mine l d h 1 n a e granted own number
take_grants l d h (some t) n a e found granted own number =
    elim (Bool-cases (t.state == "ACTIVE")) [
      | inl up ↦ elim (Bool-cases (t.holder == h)) [
        | inl held ↦
            rw (up, held, found)
              (ground (
                arith,
                up,
                held,
                own,
                (rw (up, held) at granted),
                eq_iff t.holder h,
                eq_iff t.holder a.attempt_id,
              ))
        | inr other ↦ absurd (err_not_ok (rw (up, other) at granted))
      ]
      | inr off ↦ rw (off) (given_mine l d h (t.number + 1) n a e (rw (off) at granted) own number)
    ]

-- An epoch that was given out in its domain and is not active is active in no table that any sequence
-- of acquire and release calls makes of it.
pub retired_stays :
    (os : List ClaimOp) (rows : List ClaimRow) (a : AttemptRow) (e : ℕ)
    → IsKeyed rows
    → a.write_epoch ≡ some e
    → e ≤ last_epoch rows a.conflict_domain
    → state a rows ≢ "ACTIVE"
    → state a (claim_ops rows os).1 ≢ "ACTIVE"
retired_stays os rows a e keyed epoch old idle now =
    let kept = lock_ops-Retired os (locks rows) a e (old, idle_inactive a e rows epoch idle) in
    let after = claim_ops_refine os rows keyed in
    absurd (
      true_not_false (
        sym (on_active a e (claim_ops rows os).1 epoch now)
        ∙ ap (λ l. active a e (l a.conflict_domain)) after.2
        ∙ kept.1))

-- Where acquire returns an epoch, WriteClaims.state reports an attempt of that domain ACTIVE exactly
-- when it is the one that asked, with that epoch.
pub acquire_exclusive :
    (q : Request) (rows : List ClaimRow) (n : ℕ) (a : AttemptRow) (e : ℕ)
    → IsKeyed rows
    → (acquire q rows).0 ≡ ok n
    → a.conflict_domain ≡ q.conflict_domain
    → a.write_epoch ≡ some e
    → (state a (acquire q rows).1 ≡ "ACTIVE") ↔ ((a.attempt_id ≡ q.attempt_id) × (e ≡ n))
acquire_exclusive q rows n a e keyed granted domain epoch =
    let kept = acquire-Agrees q rows keyed in
    let took = sym kept.1 ∙ granted in
    let seen : active a e (locks (acquire q rows).1 a.conflict_domain)
        ≡ active a e (
            (take_at (locks rows) q.conflict_domain q.attempt_id (locks rows q.conflict_domain)).1
              q.conflict_domain) =
      ap (λ d. active a e (locks (acquire q rows).1 d)) domain
      ∙ ap (λ l. active a e (l q.conflict_domain)) kept.2 in
    (
      (λ on.
          take_exclusive (locks rows) q.conflict_domain q.attempt_id (locks rows q.conflict_domain)
            n a e refl took (sym seen ∙ on_active a e (acquire q rows).1 epoch on)),
      (λ own. (eq_iff (state a (acquire q rows).1) "ACTIVE").0 (
          state_iff a e (acquire q rows).1 epoch
          ∙ seen
          ∙ take_grants (locks rows) q.conflict_domain q.attempt_id (locks rows q.conflict_domain) n
              a e refl took own.0 own.1)),
    )
