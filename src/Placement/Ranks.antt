-- ===== src/Placement/Ranks.antt =====
-- The order of the candidates, and who is among them.
use mathlib.Core.Path.{subst}
use mathlib.Core.List.{Memᴰ}
use mathlib.Core.List.Memᴰ
use hermes_gpt.Prelude.{
  ℕ, ◌≡◌, refl, Bool, true, false, List, [], ◌∷◌, arith, inl, inr, Bool-cases, sym, ap, ◌∙◌,
  if◌then◌else◌,
}
use hermes_gpt.Prelude.Texts.{text_le, text_le_total, text_le_trans, text_le_antisym}
use hermes_gpt.Placement.{
  Target, Requirement, Context, Candidate, Optout, apply_hard_filters, survivors, ranks, key_le,
  tie, is_clear,
}

key_total :
    (a t b u : ℕ) (p q : Bool)
    → (p ≡ false → q ≡ true)
    → key_le a t b u p ≡ false
    → key_le b u a t q ≡ true
unfolding key_le
key_total a t b u p q total h = elim (Bool-cases p) [
  | inl e ↦ ground (arith, e)
  | inr e ↦ ground (arith, e, total e)
]

key_trans :
    (a t b u c v : ℕ) (p q r : Bool)
    → (p ≡ true → q ≡ true → r ≡ true)
    → key_le a t b u p ≡ true
    → key_le b u c v q ≡ true
    → key_le a t c v r ≡ true
unfolding key_le
key_trans a t b u c v false q r trans h k = ground arith
key_trans a t b u c v true false r trans h k = ground arith
key_trans a t b u c v true true r trans h k = ground (arith, trans refl refl)

pub ranks_total : (a b : Candidate) → ranks a b ≡ false → ranks b a ≡ true
unfolding ranks
ranks_total a b =
    key_total a.total (tie a.authorization_excess) b.total (tie b.authorization_excess)
      (text_le a.target.entity_id b.target.entity_id)
      (text_le b.target.entity_id a.target.entity_id)
      (text_le_total a.target.entity_id b.target.entity_id)

pub ranks_trans : (a b c : Candidate) → ranks a b ≡ true → ranks b c ≡ true → ranks a c ≡ true
unfolding ranks
ranks_trans a b c =
    key_trans a.total (tie a.authorization_excess) b.total (tie b.authorization_excess) c.total
      (tie c.authorization_excess) (text_le a.target.entity_id b.target.entity_id)
      (text_le b.target.entity_id c.target.entity_id)
      (text_le a.target.entity_id c.target.entity_id)
      (text_le_trans a.target.entity_id b.target.entity_id c.target.entity_id)

key_rest :
    (a t b u : ℕ) (p q : Bool)
    → key_le a t b u p ≡ true
    → key_le b u a t q ≡ true
    → (p ≡ true) × (q ≡ true)
unfolding key_le
key_rest a t b u p q h k = (ground arith, ground arith)

-- Two candidates that are not after each other have the same id.
pub ranks_same :
    (a b : Candidate)
    → ranks a b ≡ true
    → ranks b a ≡ true
    → a.target.entity_id ≡ b.target.entity_id
unfolding ranks
ranks_same a b h k =
    let rests =
      key_rest a.total (tie a.authorization_excess) b.total (tie b.authorization_excess)
        (text_le a.target.entity_id b.target.entity_id)
        (text_le b.target.entity_id a.target.entity_id) h k in
    text_le_antisym a.target.entity_id b.target.entity_id rests.0 rests.1

clear_only : (codes : List Optout) → is_clear codes ≡ true → codes ≡ []
unfolding is_clear
clear_only [] h = refl
clear_only (code ∷ codes) h = absurd cc

abbrev kept : Bool → Target → List Target → List Target
kept b u rest = if b then u ∷ rest else rest

kept_tail : (b : Bool) (t u : Target) (rest : List Target) → Memᴰ t rest → Memᴰ t (kept b u rest)
kept_tail true t u rest m = Memᴰ.tail m
kept_tail false t u rest m = m

pub survivors_only :
    (r : Requirement) (ctx : Context) (t : Target) (ts : List Target)
    → Memᴰ t (survivors r ctx ts)
    → Memᴰ t ts × (apply_hard_filters t r ctx ≡ [])
unfolding survivors
survivors_only r ctx t [] m = absurd (Memᴰ.not-nil m)
survivors_only r ctx t (u ∷ ts) m = elim (Bool-cases (is_clear (apply_hard_filters u r ctx))) [
  | inl e ↦ elim (Memᴰ.cases_cons (subst (λ b. Memᴰ t (kept b u (survivors r ctx ts))) e m)) [
    | inl k ↦ (Memᴰ.head k, rw (k) (clear_only (apply_hard_filters u r ctx) e))
    | inr n ↦ let found = survivors_only r ctx t ts n in (Memᴰ.tail found.0, found.1)
  ]
  | inr e ↦
      let found =
        survivors_only r ctx t ts (subst (λ b. Memᴰ t (kept b u (survivors r ctx ts))) e m) in
      (Memᴰ.tail found.0, found.1)
]

pub survivors_all :
    (r : Requirement) (ctx : Context) (t : Target) (ts : List Target)
    → Memᴰ t ts
    → apply_hard_filters t r ctx ≡ []
    → Memᴰ t (survivors r ctx ts)
unfolding survivors
survivors_all r ctx t [] m h = m
survivors_all r ctx t (u ∷ ts) m h = elim (Memᴰ.cases_cons m) [
  | inl k ↦
      subst (λ b. Memᴰ t (kept b u (survivors r ctx ts)))
        (sym (ap is_clear (ap (λ x. apply_hard_filters x r ctx) (sym k) ∙ h))) (Memᴰ.head k)
  | inr n ↦
      kept_tail (is_clear (apply_hard_filters u r ctx)) t u (survivors r ctx ts)
        (survivors_all r ctx t ts n h)
]
