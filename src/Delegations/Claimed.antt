-- ===== src/Delegations/Claimed.antt =====
-- What one step of a dispatch does to the claims of a delegation and to its submissions.
pub mod Steps
use mathlib.Core.Option
use mathlib.Core.Path.{subst}
use hermes_gpt.Prelude.{
  ℕ, zero, suc, ◌+◌, ◌-◌, ◌≤◌, String, Bool, true, false, not, Option, none, some, List, [], ◌∷◌,
  ◌++◌, ◌≡◌, refl, sym, ap, ◌∙◌, inl, inr, ◌⊎◌, arith, ◌==◌, ◌&&◌, ◌||◌, eqb, leb, eq_iff, eq_refl,
  Bool-cases, Option-cases, if◌then◌else◌,
}
use hermes_gpt.Prelude.Names.{one_if}
use hermes_gpt.Prelude.Rows.{select, update, count, select_sound, count_found}
use hermes_gpt.Delegations.{
  Phase, reserved, invoking, dispatched, cancelled, same_phase, same_state, State, Row, id_key,
  invoked_key, one_changed,
}
use hermes_gpt.Delegations.Dispatch
use hermes_gpt.Delegations.Phases.{
  row_claimable, claimable, IsKeyed, Closes, Closes-refl, update-IsKeyed, selected, update-Closes,
}
use hermes_gpt.Delegations.Run.{submits}

-- 1 for a call that has claimed the invocation and whose contract no backend has taken yet.
abbrev pub holding : Dispatch.Place → ℕ
holding Dispatch.guarding = 1
holding Dispatch.releasing = 1
holding Dispatch.calling = 1
holding Dispatch.rejecting = 1
holding _ = 0

-- A step of a call that held `h` claims of a delegation, holds `h'` and submits its contract `n`
-- times: it hands on or drops what it held, or gives its claim back, or claims a delegation that
-- waits.
abbrev pub Fair : String → List Row → List Row → ℕ → ℕ → ℕ → Type 0
Fair d rows rows' h h' n =
    ((claimable rows' d ≡ true → claimable rows d ≡ true) × (h' + n ≤ h))
    ⊎ ((h ≡ 1) × (h' + n ≡ 0))
    ⊎ ((claimable rows d ≡ true) × (claimable rows' d ≡ false) × (h' + n ≡ 1))

some_not_none : {r : Row} → ◌≡◌ {A = Option Row} (some r) none → ⊥
some_not_none h = cc

unselected :
    (q : Dispatch.Request) (rows : List Row)
    → select (Dispatch.collides q) rows ≡ none
    → count (id_key q.delegation_id) rows ≡ 0
unfolding select count
unselected q [] h = refl
unselected q (r ∷ rows) h = elim (Bool-cases (id_key q.delegation_id r)) [
  | inl e ↦ absurd (some_not_none (rw (e) at h))
  | inr e ↦ elim (Bool-cases (r.task_id == q.task_id)) [
    | inl e' ↦ absurd (some_not_none (rw (e, e') at h))
    | inr e' ↦ rw (e) (unselected q rows (rw (e, e') at h))
  ]
]

claimable-append :
    (d : String) (r : Row) (rows : List Row)
    → claimable (rows ++ r ∷ []) d ≡ true
    → claimable rows d ≡ true
unfolding select
claimable-append d r [] h = refl
claimable-append d r (x ∷ rows) h = elim (Bool-cases (id_key d x)) [
  | inl e ↦ rw (e) (rw (e) at h)
  | inr e ↦ rw (e) (claimable-append d r rows (rw (e) at h))
]

count-append :
    (p : Row → Bool) (r : Row) (rows : List Row)
    → count p (rows ++ r ∷ []) ≡ count p rows + one_if (p r)
unfolding count
count-append p r [] = ground arith
count-append p r (x ∷ rows) = ground (arith, count-append p r rows)

reserved-IsKeyed :
    (q : Dispatch.Request) (now : ℕ) (rows : List Row)
    → select (Dispatch.collides q) rows ≡ none
    → IsKeyed rows
    → IsKeyed (rows ++ Dispatch.new_row q now ∷ [])
reserved-IsKeyed q now rows free keyed d = elim (Bool-cases (q.delegation_id == d)) [
  | inl e ↦ ground (
    arith,
    count-append (id_key d) (Dispatch.new_row q now) rows,
    subst (λ x. count (id_key x) rows ≡ 0) ((eq_iff q.delegation_id d).0 e)
        (unselected q rows free),
  )
  | inr e ↦ ground (arith, count-append (id_key d) (Dispatch.new_row q now) rows, keyed d)
]

pub reserve-Closes :
    (q : Dispatch.Request) (now : ℕ) (rows : List Row) (found : Option Row)
    → select (Dispatch.collides q) rows ≡ found
    → Closes rows (Dispatch.reserve_found q now rows found).0
unfolding Closes
reserve-Closes q now rows (some r) e = ((λ h. h), λ d h. h)
reserve-Closes q now rows none e =
    (reserved-IsKeyed q now rows e, λ d h. claimable-append d (Dispatch.new_row q now) rows h)

pub claim-Closes :
    (d : String) (now : ℕ) (rows : List Row)
    → Closes rows (update (Dispatch.claim_key d) (Dispatch.claimed now) rows)
claim-Closes d now rows =
    update-Closes (Dispatch.claim_key d) (Dispatch.claimed now) rows (λ r. refl)
      (λ d' r found key h. absurd cc)

-- What waits under the key, with one row for it.
waiting :
    (d : String) (rows : List Row) (found : Option Row)
    → select (id_key d) rows ≡ found
    → IsKeyed rows
    → one_changed (Dispatch.claim_key d) rows ≡ true
    → (r : Row) × (found ≡ some r) × (Dispatch.waits r ≡ true)
waiting d rows none read keyed one = absurd (
    ground (
      arith,
      one,
      count_found (id_key d) Dispatch.waits rows (keyed d)
          ∙ ap (λ o. elim o [ none ↦ false | some r ↦ Dispatch.waits r ]) read,
    ))
waiting d rows (some r) read keyed one = (
  r,
  refl,
  ground (
    arith,
    one,
    count_found (id_key d) Dispatch.waits rows (keyed d)
        ∙ ap (λ o. elim o [ none ↦ false | some r ↦ Dispatch.waits r ]) read,
  ),
)

-- The claim finds a delegation that waits, and leaves none.
pub claim_takes :
    (d : String) (now : ℕ) (rows : List Row)
    → IsKeyed rows
    → one_changed (Dispatch.claim_key d) rows ≡ true
    → (claimable rows d ≡ true)
      × (claimable (update (Dispatch.claim_key d) (Dispatch.claimed now) rows) d ≡ false)
claim_takes d now rows keyed one =
    let (r, read, waits) = waiting d rows (select (id_key d) rows) refl keyed one in
    (
      rw (read) (ground (arith, waits)),
      rw (selected (Dispatch.claim_key d) (Dispatch.claimed now) rows d (λ x. refl), read)
          (rw (select_sound (id_key d) rows r read, waits) refl),
    )

pub Closes-at :
    (rows rows' : List Row) (d : String)
    → Closes rows rows'
    → claimable rows' d ≡ true
    → claimable rows d ≡ true
unfolding Closes
Closes-at rows rows' d c = c.1 d

-- An UPDATE of one delegation leaves the others.
pub update_elsewhere :
    (p : Row → Bool) (f : Row → Row) (rows : List Row) (d d' : String)
    → ((r : Row) → (f r).delegation_id ≡ r.delegation_id)
    → ((r : Row) → p r ≡ true → id_key d r ≡ true)
    → (d == d') ≡ false
    → claimable (update p f rows) d' ≡ claimable rows d'
update_elsewhere p f rows d d' same keyed other = elim (Option-cases (select (id_key d') rows)) [
  | inl read ↦ ap row_claimable (selected p f rows d' same) ∙ rw (read) refl
  | inr (r, read) ↦
      ap row_claimable (selected p f rows d' same)
      ∙ rw (read, unmatched p r d d' (keyed r) other (select_sound (id_key d') rows r read)) refl
]
  where
    unmatched :
        (p : Row → Bool) (r : Row) (d d' : String)
        → (p r ≡ true → id_key d r ≡ true)
        → (d == d') ≡ false
        → id_key d' r ≡ true
        → p r ≡ false
    unmatched p r d d' keyed other here = elim (Bool-cases (p r)) [
      | inr h ↦ h
      | inl h ↦ absurd (
          ground (
            arith,
            keyed h,
            other,
            here,
            eq_iff r.delegation_id d,
            eq_iff r.delegation_id d',
            eq_iff d d',
          ))
    ]

pub record-Closes :
    (d : String) (i : Dispatch.Input) (ambiguous : Bool) (s : String) (rows : List Row)
    → Closes rows (update (invoked_key d) (Dispatch.recorded i ambiguous s) rows)
record-Closes d i ambiguous s rows =
    update-Closes (invoked_key d) (Dispatch.recorded i ambiguous s) rows (λ r. refl)
      (λ d' r found key h. absurd (not_reserved ambiguous h))
  where
    not_reserved :
        (ambiguous : Bool)
        → same_phase (if ambiguous then invoking else dispatched) reserved ≡ true
        → ⊥
    not_reserved true h = cc
    not_reserved false h = cc

pub mark-Closes :
    (d : String) (now : ℕ) (rows : List Row)
    → Closes rows (update (invoked_key d) (Dispatch.marked now) rows)
mark-Closes d now rows =
    update-Closes (invoked_key d) (Dispatch.marked now) rows (λ r. refl) (λ d' r found key h. h)
