-- ===== src/Claims/Refines.antt =====
-- Every sequence of calls of WriteClaims replies as the abstract locks do.
use mathlib.Core.Option
use mathlib.Core.Path.{subst}
use hermes_gpt.Prelude.{
  ℕ, String, Bool, false, Option, none, some, List, [], ◌∷◌, ◌+◌, ◌≡◌, refl, sym, ap, ◌∙◌, arith,
  ◌==◌, leb, eq_iff, eq_refl, Bool-cases, Option-cases, inl, inr, if◌then◌else◌,
}
use hermes_gpt.Prelude.Result.{Result, ok}
use hermes_gpt.Prelude.Rows.{select, update, count, select_sound, select-update, count_found}
use hermes_gpt.Claims.{
  ClaimRow, AttemptRow, Request, domain_key, is_active, next_epoch, claimed_row, acquire_new,
  acquire_over, acquire, released_row, owned, owned_key, release_at, release,
}
use hermes_gpt.Claims.Spec.{Tenure, Locks, set, take_at, take, mine, free_at, free}
use hermes_gpt.Claims.Table.{
  tenure, locks, IsKeyed, insert_or_replace-IsKeyed, locks-insert_or_replace, update-IsKeyed,
}

pub data ClaimOp : Type 0 where
  acquiring : Request → ClaimOp
  -- the attempt, the proof and the time
  releasing : AttemptRow → String → String → ClaimOp

pub data Reply : Type 0 where
  granted : Result ℕ → Reply
  freed : Bool → Reply

abbrev pub claim_op : List ClaimRow → ClaimOp → Reply × List ClaimRow
claim_op rows (acquiring q) = let done = acquire q rows in (granted done.0, done.1)
claim_op rows (releasing a proof now) =
    let done = release a proof now rows in (freed done.0, done.1)

abbrev pub free_epoch : Locks → String → String → Option ℕ → Bool × Locks
free_epoch l d a none = (false, l)
free_epoch l d a (some n) = free l d a n

abbrev pub lock_op : Locks → ClaimOp → Reply × Locks
lock_op l (acquiring q) =
    let done = take l q.conflict_domain q.attempt_id in (granted done.0, done.1)
lock_op l (releasing a proof now) =
    let done = free_epoch l a.conflict_domain a.attempt_id a.write_epoch in (freed done.0, done.1)

-- The replies and the last state of a sequence of calls.
abbrev pub claim_ops : List ClaimRow → List ClaimOp → List Reply × List ClaimRow
claim_ops rows [] = ([], rows)
claim_ops rows (o ∷ os) =
    let done = claim_op rows o in let rest = claim_ops done.1 os in (done.0 ∷ rest.0, rest.1)

abbrev pub lock_ops : Locks → List ClaimOp → List Reply × Locks
lock_ops l [] = ([], l)
lock_ops l (o ∷ os) =
    let done = lock_op l o in let rest = lock_ops done.1 os in (done.0 ∷ rest.0, rest.1)

-- The outcome of a call of the code against that of one of the contract.
abbrev pub Agrees {ℓ} : {R : Type ℓ} → R × List ClaimRow → R × Locks → Type ℓ
Agrees x y = IsKeyed x.1 × (x.0 ≡ y.0) × (locks x.1 ≡ y.1)

acquire_new-Agrees :
    (q : Request) (rows : List ClaimRow) (claim : Option ClaimRow) (n : ℕ)
    → IsKeyed rows
    → next_epoch claim ≡ n
    → Agrees
        (acquire_new q rows claim)
        (ok n, set (locks rows) q.conflict_domain (tenure (claimed_row q n)))
unfolding acquire_new
acquire_new-Agrees q rows claim n h e =
    subst
      (λ m.
        Agrees (acquire_new q rows claim)
          (ok m, set (locks rows) q.conflict_domain (tenure (claimed_row q m))))
      e
      (
        insert_or_replace-IsKeyed (claimed_row q (next_epoch claim)) rows h,
        refl,
        λ i d. locks-insert_or_replace (claimed_row q (next_epoch claim)) rows d i,
      )

acquire_over-Agrees :
    (q : Request) (rows : List ClaimRow) (claim : Option ClaimRow)
    → IsKeyed rows
    → Agrees
        (acquire_over q rows claim)
        (take_at (locks rows) q.conflict_domain q.attempt_id (Option.map tenure claim))
unfolding acquire_over
acquire_over-Agrees q rows none h = acquire_new-Agrees q rows none 1 h refl
acquire_over-Agrees q rows (some claim) h = elim (Bool-cases (is_active claim)) [
  | inl e ↦ elim (Bool-cases (claim.attempt_id == q.attempt_id)) [
    | inl e' ↦ rw (e, e') (h, refl, refl)
    | inr e' ↦ rw (e, e') (h, refl, refl)
  ]
  | inr e ↦ rw (e) (acquire_new-Agrees q rows (some claim) (claim.epoch + 1) h refl)
]

pub acquire-Agrees :
    (q : Request) (rows : List ClaimRow)
    → IsKeyed rows
    → Agrees (acquire q rows) (take (locks rows) q.conflict_domain q.attempt_id)
unfolding acquire
acquire-Agrees q rows h = acquire_over-Agrees q rows (select (domain_key q.conflict_domain) rows) h

-- What the locks read of one domain after the UPDATE of release.
released_at :
    (a : AttemptRow) (e : ℕ) (proof now : String) (rows : List ClaimRow) (d : String)
    (found : Option ClaimRow)
    → select (domain_key d) rows ≡ found
    → locks (update (owned_key a e) (released_row proof now) rows) d
      ≡ Option.map tenure
          (Option.map (λ r. if owned_key a e r then released_row proof now r else r) found)
released_at a e proof now rows d found h = ap (Option.map tenure) (
    select-update (domain_key d) (owned_key a e) (released_row proof now) (λ r. refl) rows
    ∙ ap (Option.map _) h)

not_owned :
    (a : AttemptRow) (e : ℕ) (rows : List ClaimRow) (d : String) (r : ClaimRow)
    → (a.conflict_domain == d) ≡ false
    → select (domain_key d) rows ≡ some r
    → owned_key a e r ≡ false
not_owned a e rows d r other h = ground (
  arith,
  select_sound (domain_key d) rows r h,
  eq_iff r.conflict_domain d,
  eq_iff r.conflict_domain a.conflict_domain,
  eq_iff a.conflict_domain d,
)

released_elsewhere :
    (a : AttemptRow) (e : ℕ) (proof now : String) (rows : List ClaimRow) (d : String)
    → (a.conflict_domain == d) ≡ false
    → locks (update (owned_key a e) (released_row proof now) rows) d ≡ locks rows d
released_elsewhere a e proof now rows d other = elim (Option-cases (select (domain_key d) rows)) [
  | inl h ↦ released_at a e proof now rows d none h ∙ sym (ap (Option.map tenure) h)
  | inr (r, h) ↦
      released_at a e proof now rows d (some r) h ∙ rw (not_owned a e rows d r other h, h) refl
]

free_at_elsewhere :
    (l : Locks) (a : AttemptRow) (e : ℕ) (found : Option Tenure) (d : String)
    → (a.conflict_domain == d) ≡ false
    → (free_at l a.conflict_domain a.attempt_id e found).1 d ≡ l d
free_at_elsewhere l a e none d other = refl
free_at_elsewhere l a e (some t) d other = elim (Bool-cases (mine a.attempt_id e t)) [
  | inl h ↦ rw (h, other) refl
  | inr h ↦ rw (h) refl
]

released_here :
    (a : AttemptRow) (e : ℕ) (proof now : String) (rows : List ClaimRow) (found : Option ClaimRow)
    → select (domain_key a.conflict_domain) rows ≡ found
    → locks (update (owned_key a e) (released_row proof now) rows) a.conflict_domain
      ≡ (free_at (locks rows) a.conflict_domain a.attempt_id e (Option.map tenure found)).1
          a.conflict_domain
released_here a e proof now rows none h =
    released_at a e proof now rows a.conflict_domain none h ∙ sym (ap (Option.map tenure) h)
released_here a e proof now rows (some r) h =
    released_at a e proof now rows a.conflict_domain (some r) h ∙ elim (Bool-cases (owned a e r)) [
      | inl mine ↦
          rw (mine, select_sound (domain_key a.conflict_domain) rows r h, eq_refl a.conflict_domain)
            refl
      | inr other ↦ rw (other, select_sound (domain_key a.conflict_domain) rows r h, h) refl
    ]

release_over :
    (a : AttemptRow) (e : ℕ) (proof now : String) (rows : List ClaimRow) (found : Option ClaimRow)
    (d : String)
    → select (domain_key a.conflict_domain) rows ≡ found
    → locks (update (owned_key a e) (released_row proof now) rows) d
      ≡ (free_at (locks rows) a.conflict_domain a.attempt_id e (Option.map tenure found)).1 d
release_over a e proof now rows found d h = elim (Bool-cases (a.conflict_domain == d)) [
  | inr other ↦
      released_elsewhere a e proof now rows d other
      ∙ sym (free_at_elsewhere (locks rows) a e (Option.map tenure found) d other)
  | inl same ↦
      subst
        (λ x.
          locks (update (owned_key a e) (released_row proof now) rows) x
          ≡ (free_at (locks rows) a.conflict_domain a.attempt_id e (Option.map tenure found)).1 x)
        ((eq_iff a.conflict_domain d).0 same) (released_here a e proof now rows found h)
]

mine_first :
    (l : Locks) (a : AttemptRow) (e : ℕ) (r : ClaimRow)
    → owned a e r ≡ (free_at l a.conflict_domain a.attempt_id e (some (tenure r))).0
mine_first l a e r = elim (Bool-cases (owned a e r)) [ inl h ↦ rw (h) refl | inr h ↦ rw (h) refl ]

release_counts :
    (l : Locks) (a : AttemptRow) (e : ℕ) (rows : List ClaimRow) (found : Option ClaimRow)
    → IsKeyed rows
    → select (domain_key a.conflict_domain) rows ≡ found
    → leb 1 (count (owned_key a e) rows)
      ≡ (free_at l a.conflict_domain a.attempt_id e (Option.map tenure found)).0
release_counts l a e rows none h found =
    count_found (domain_key a.conflict_domain) (owned a e) rows (h a.conflict_domain)
    ∙ rw (found) refl
release_counts l a e rows (some r) h found =
    count_found (domain_key a.conflict_domain) (owned a e) rows (h a.conflict_domain)
    ∙ rw (found) (mine_first l a e r)

release-Agrees :
    (a : AttemptRow) (proof now : String) (rows : List ClaimRow) (epoch : Option ℕ)
    → IsKeyed rows
    → Agrees
        (release_at a proof now rows epoch)
        (free_epoch (locks rows) a.conflict_domain a.attempt_id epoch)
unfolding release_at
release-Agrees a proof now rows none h = (h, refl, refl)
release-Agrees a proof now rows (some e) h = (
  update-IsKeyed (owned_key a e) (released_row proof now) rows (λ r. refl) h,
  release_counts (locks rows) a e rows (select (domain_key a.conflict_domain) rows) h refl,
  λ i d. release_over a e proof now rows (select (domain_key a.conflict_domain) rows) d refl i,
)

claim_op-Agrees :
    (o : ClaimOp) (rows : List ClaimRow)
    → IsKeyed rows
    → Agrees (claim_op rows o) (lock_op (locks rows) o)
unfolding release
claim_op-Agrees (acquiring q) rows h =
    let done = acquire-Agrees q rows h in (done.0, ap granted done.1, done.2)
claim_op-Agrees (releasing a proof now) rows h =
    let done = release-Agrees a proof now rows a.write_epoch h in (done.0, ap freed done.1, done.2)

-- On a table with one row for a domain, any sequence of acquire and release gives the replies of the
-- abstract locks and ends in a table that reads as they do, again with one row for a domain.
pub claim_ops_refine :
    (os : List ClaimOp) (rows : List ClaimRow)
    → IsKeyed rows
    → Agrees (claim_ops rows os) (lock_ops (locks rows) os)
claim_ops_refine [] rows h = (h, refl, refl)
claim_ops_refine (o ∷ os) rows h =
    let one = claim_op-Agrees o rows h in
    let rest = claim_ops_refine os (claim_op rows o).1 one.0 in
    rw (sym one.1, sym one.2) (rest.0, ap (λ replies. (claim_op rows o).0 ∷ replies) rest.1, rest.2)
