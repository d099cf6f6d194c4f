-- ===== src/Delegations/Phases.antt =====
-- When a delegation may be claimed for an invocation, and that cancellations and reconciliations do
-- not make it so again.
pub mod Cancelled
pub mod Reconciled
use mathlib.Core.Option
use mathlib.Core.Path.{subst}
use hermes_gpt.Prelude.{
  ℕ, suc, ◌+◌, ◌-◌, ◌≤◌, leb, String, Bool, true, false, not, Option, none, some, List, [], ◌∷◌,
  ◌++◌, ◌≡◌, refl, sym, ap, ◌∙◌, inl, inr, ◌⊎◌, arith, ◌==◌, ◌&&◌, ◌||◌, eqb, eq_iff, eq_refl,
  Bool-cases, Option-cases, if◌then◌else◌,
}
use hermes_gpt.Prelude.Rows.{
  select, update, count, select_sound, select-update, count-update, count_found,
}
use hermes_gpt.Delegations.{
  State, same_state, Phase, reserved, invoking, dispatched, cancelled, same_phase, is_terminal, Row,
  id_key, one_changed,
}
use hermes_gpt.Delegations.Cancel
use hermes_gpt.Delegations.Reconcile

abbrev pub row_claimable : Option Row → Bool
row_claimable none = true
row_claimable (some r) = same_phase r.dispatch_phase reserved

-- The delegation has no row, or a row that waits for a dispatch.
abbrev pub claimable : List Row → String → Bool
claimable rows d = row_claimable (select (id_key d) rows)

-- The primary key.
abbrev pub IsKeyed : List Row → Type 0
IsKeyed rows = (d : String) → count (id_key d) rows ≤ 1

-- A change of the rows that keeps the key and makes no delegation claimable.
unfoldable pub Closes : List Row → List Row → Type 0
Closes rows rows' =
    (IsKeyed rows → IsKeyed rows')
    × ((d : String) → claimable rows' d ≡ true → claimable rows d ≡ true)

pub Closes-refl : (rows : List Row) → Closes rows rows
unfolding Closes
Closes-refl rows = ((λ h. h), λ d h. h)

pub update-IsKeyed :
    (p : Row → Bool) (f : Row → Row) (rows : List Row)
    → ((r : Row) → (f r).delegation_id ≡ r.delegation_id)
    → IsKeyed rows
    → IsKeyed (update p f rows)
update-IsKeyed p f rows same h d =
    ground (arith, count-update (id_key d) p f (λ r. ap (λ x. x == d) (same r)) rows, h d)

pub selected :
    (p : Row → Bool) (f : Row → Row) (rows : List Row) (d : String)
    → ((r : Row) → (f r).delegation_id ≡ r.delegation_id)
    → select (id_key d) (update p f rows)
      ≡ Option.map (λ r. if p r then f r else r) (select (id_key d) rows)
selected p f rows d same = select-update (id_key d) p f (λ r. ap (λ x. x == d) (same r)) rows

update_claimable :
    (p : Row → Bool) (f : Row → Row) (found : Option Row)
    → ((r : Row)
        → found ≡ some r
        → p r ≡ true
        → same_phase (f r).dispatch_phase reserved ≡ true
        → same_phase r.dispatch_phase reserved ≡ true)
    → row_claimable (Option.map (λ r. if p r then f r else r) found) ≡ true
    → row_claimable found ≡ true
update_claimable p f none kept h = refl
update_claimable p f (some r) kept h = elim (Bool-cases (p r)) [
  | inl e ↦ kept r refl e (rw (e) at h)
  | inr e ↦ rw (e) at h
]

-- An UPDATE whose new phase is reserved only where the old one was.
pub update-Closes :
    (p : Row → Bool) (f : Row → Row) (rows : List Row)
    → ((r : Row) → (f r).delegation_id ≡ r.delegation_id)
    → ((d : String) (r : Row)
        → select (id_key d) rows ≡ some r
        → p r ≡ true
        → same_phase (f r).dispatch_phase reserved ≡ true
        → same_phase r.dispatch_phase reserved ≡ true)
    → Closes rows (update p f rows)
unfolding Closes
update-Closes p f rows same kept = (
  update-IsKeyed p f rows same,
  λ d h.
      update_claimable p f (select (id_key d) rows) (kept d)
        (subst (λ found. row_claimable found ≡ true) (selected p f rows d same) h),
)

pub some_injective : {r s : Row} → ◌≡◌ {A = Option Row} (some r) (some s) → r ≡ s
some_injective h = cc

same_id :
    (rows : List Row) (d d' : String) (r : Row)
    → select (id_key d') rows ≡ some r
    → id_key d r ≡ true
    → d' ≡ d
same_id rows d d' r found key = ground (
  arith,
  select_sound (id_key d') rows r found,
  eq_iff r.delegation_id d',
  eq_iff r.delegation_id d,
)

-- The row that a transaction has read is the one that its UPDATE by the key changes.
pub read_row :
    (rows : List Row) (d d' : String) (r r' : Row)
    → select (id_key d) rows ≡ some r
    → select (id_key d') rows ≡ some r'
    → id_key d r' ≡ true
    → r' ≡ r
read_row rows d d' r r' read found key = some_injective (
    sym found
    ∙ subst (λ x. select (id_key d') rows ≡ select (id_key x) rows) (same_id rows d d' r' found key)
        refl
    ∙ read)

same_phase_trans :
    (p s : Phase)
    → same_phase p s ≡ true
    → same_phase s reserved ≡ true
    → same_phase p reserved ≡ true
same_phase_trans p s h h' = ground (arith, h, h')
