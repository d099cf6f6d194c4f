-- ===== src/Claims/Table.antt =====
-- The table write_claims has one row for a domain, and reads as one lock for each.
use mathlib.Core.Option
use hermes_gpt.Prelude.{
  ◌≤◌, String, Bool, some, List, [], ◌∷◌, ◌++◌, ◌≡◌, ap, arith, ◌==◌, eq_iff, Bool-cases, inl, inr,
  if◌then◌else◌,
}
use hermes_gpt.Prelude.Rows.{select, update, delete, count, count-update}
use hermes_gpt.Claims.{ClaimRow, domain_key, insert_or_replace}
use hermes_gpt.Claims.Spec.{Tenure, Locks, set}

abbrev pub tenure : ClaimRow → Tenure
tenure r = record { holder = r.attempt_id; number = r.epoch; state = r.state }

-- The abstract locks of a table.
abbrev pub locks : List ClaimRow → Locks
locks rows d = Option.map tenure (select (domain_key d) rows)

-- The primary key.
abbrev pub IsKeyed : List ClaimRow → Type 0
IsKeyed rows = (d : String) → count (domain_key d) rows ≤ 1

select-replace :
    (d : String) (r : ClaimRow) (rows : List ClaimRow)
    → select (domain_key d) (delete (domain_key r.conflict_domain) rows ++ r ∷ [])
      ≡ (if r.conflict_domain == d then some r else select (domain_key d) rows)
unfolding select delete
select-replace d r [] = ground arith
select-replace d r (x ∷ rows) = ground (
  arith,
  eq_iff r.conflict_domain d,
  eq_iff x.conflict_domain d,
  eq_iff x.conflict_domain r.conflict_domain,
  select-replace d r rows,
)

count-replace :
    (d : String) (r : ClaimRow) (rows : List ClaimRow)
    → count (domain_key d) (delete (domain_key r.conflict_domain) rows ++ r ∷ [])
      ≡ (if r.conflict_domain == d then 1 else count (domain_key d) rows)
unfolding count delete
count-replace d r [] = ground arith
count-replace d r (x ∷ rows) = ground (
  arith,
  eq_iff r.conflict_domain d,
  eq_iff x.conflict_domain d,
  eq_iff x.conflict_domain r.conflict_domain,
  count-replace d r rows,
)

pub insert_or_replace-IsKeyed :
    (r : ClaimRow) (rows : List ClaimRow) → IsKeyed rows → IsKeyed (insert_or_replace r rows)
unfolding insert_or_replace
insert_or_replace-IsKeyed r rows h d = ground (arith, h d, count-replace d r rows)

pub locks-insert_or_replace :
    (r : ClaimRow) (rows : List ClaimRow) (d : String)
    → locks (insert_or_replace r rows) d ≡ set (locks rows) r.conflict_domain (tenure r) d
unfolding insert_or_replace
locks-insert_or_replace r rows d = elim (Bool-cases (r.conflict_domain == d)) [
  | inl e ↦ rw (select-replace d r rows, e)
  | inr e ↦ rw (select-replace d r rows, e)
]

pub update-IsKeyed :
    (p : ClaimRow → Bool) (f : ClaimRow → ClaimRow) (rows : List ClaimRow)
    → ((r : ClaimRow) → (f r).conflict_domain ≡ r.conflict_domain)
    → IsKeyed rows
    → IsKeyed (update p f rows)
update-IsKeyed p f rows same h d =
    ground (arith, count-update (domain_key d) p f (λ r. ap (λ x. x == d) (same r)) rows, h d)
