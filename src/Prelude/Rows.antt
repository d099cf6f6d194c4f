-- ===== src/Prelude/Rows.antt =====
-- SQL tables as lists of rows: SELECT (the first match), UPDATE and DELETE with a WHERE test.
use Prim.Native.Nat.{ℕ, suc, ◌≤◌}
use mathlib.Core.Path.{◌≡◌, refl}
use mathlib.Core.Bool.{Bool, true, false, ◌&&◌}
use mathlib.Core.Logic.{inl, inr}
use mathlib.Core.Option.{Option, none, some}
use mathlib.Core.List.{List, [], ◌∷◌}
use native.Mathlib.Omega.{arith}
use mathlib.Core.Option
use hermes_gpt.Prelude.Tests.{if◌then◌else◌, leb, Bool-cases}

module _ {ℓ} {A : Type ℓ} where
  unfoldable pub select : (A → Bool) → List A → Option A
  select p [] = none
  select p (r ∷ rs) = if p r then some r else select p rs

  unfoldable pub update : (A → Bool) → (A → A) → List A → List A
  update p f [] = []
  update p f (r ∷ rs) = (if p r then f r else r) ∷ update p f rs

  unfoldable pub delete : (A → Bool) → List A → List A
  delete p [] = []
  delete p (r ∷ rs) = let rest = delete p rs in if p r then rest else r ∷ rest

  -- the cursor's `rowcount`
  unfoldable pub count : (A → Bool) → List A → ℕ
  count p [] = 0
  count p (r ∷ rs) = let rest = count p rs in if p r then suc rest else rest

module _ {ℓ} {A : Type ℓ} where
  pub select_sound : (p : A → Bool) (rs : List A) (r : A) → select p rs ≡ some r → p r ≡ true
  unfolding select
  select_sound p [] r h = cc
  select_sound p (x ∷ rs) r h = ground (arith, select_sound p rs r)

  -- What a SELECT finds after an UPDATE that leaves its key alone.
  pub select-update :
      (p q : A → Bool) (f : A → A)
      → ((r : A) → p (f r) ≡ p r)
      → (rs : List A)
      → select p (update q f rs) ≡ Option.map (λ r. if q r then f r else r) (select p rs)
  unfolding select update
  select-update p q f same [] = refl
  select-update p q f same (r ∷ rs) = ground (arith, same r, select-update p q f same rs)

  pub count-update :
      (p q : A → Bool) (f : A → A)
      → ((r : A) → p (f r) ≡ p r)
      → (rs : List A) → count p (update q f rs) ≡ count p rs
  unfolding count update
  count-update p q f same [] = refl
  count-update p q f same (r ∷ rs) = ground (arith, same r, count-update p q f same rs)

  count_both : (p q : A → Bool) (rs : List A) → count (λ r. p r && q r) rs ≤ count p rs
  unfolding count
  count_both p q [] = omega arith
  count_both p q (r ∷ rs) = ground (arith, count_both p q rs)

  -- Where a key names one row at most, a count under it says whether the row found passes.
  pub count_found :
      (p q : A → Bool) (rs : List A)
      → count p rs ≤ 1
      → leb 1 (count (λ r. p r && q r) rs) ≡ elim (select p rs) [ none ↦ false | some r ↦ q r ]
  unfolding select count
  count_found p q [] h = refl
  count_found p q (r ∷ rs) h = elim (Bool-cases (p r)) [
    | inl e ↦ ground (arith, count_both p q rs)
    | inr e ↦ ground (arith, count_found p q rs)
  ]
