-- ===== src/Mission/Observe/Successor.antt =====
-- The chains of superseded attempts: _resolve_successor finds the end of every chain of at most 16.
use mathlib.Core.Path.{subst}
use hermes_gpt.Prelude.{
  ℕ, zero, suc, ◌<◌, String, true, Option, some, List, [], ◌∷◌, ◌≡◌, refl, sym, ◌⊎◌, inl, inr, ◌↔◌,
  arith, Bool-cases, Option-cases, eq_iff, ◌==◌,
}
use hermes_gpt.Prelude.Names.{contains}
use hermes_gpt.Mission.Defs.{Relationship, superseded_by, plain, Attachment}
use hermes_gpt.Mission.Observe.{follow, resolve_successor, max_supersede_chain}

Relationship-cases :
    (ρ : Relationship)
    → ((text : String) × (ρ ≡ plain text)) ⊎ ((next : String) × (ρ ≡ superseded_by next))
Relationship-cases (plain text) = inl (text, refl)
Relationship-cases (superseded_by next) = inr (next, refl)

module _ (find : String → Option Attachment) where
  -- `n` markers lead from the reference to an attachment that is not marked.
  pub data Chain : ℕ → String → String → Type 0 where
    live :
        (ref text : String) (a : Attachment)
        → find ref ≡ some a
        → a.relationship ≡ plain text
        → Chain 0 ref ref
    marked :
        (n : ℕ) (ref next last : String) (a : Attachment)
        → find ref ≡ some a
        → a.relationship ≡ superseded_by next
        → Chain n next last
        → Chain (suc n) ref last

  -- A reference has one chain at most.
  Chain-length : {n k : ℕ} {ref last last' : String} → Chain n ref last → Chain k ref last' → n ≡ k
  Chain-length (live _ _ _ _ _) (live _ _ _ _ _) = refl
  Chain-length (live ref text a h r) (marked k _ next last b h' r' c) = absurd (ground arith)
  Chain-length (marked n ref next last a h r c) (live _ text b h' r') = absurd (ground arith)
  Chain-length (marked n ref next last a h r c) (marked k _ next' last' b h' r' c') =
      let named : next ≡ next' = ground arith in
      ground (arith, Chain-length c (subst (λ x. Chain k x last') (sym named) c'))

  follow_sound :
      (fuel : ℕ) (seen : List String) (ref last : String)
      → follow find fuel seen ref ≡ some last
      → (n : ℕ) × (n < fuel) × Chain n ref last
  unfolding follow
  follow_sound zero seen ref last h = absurd cc
  follow_sound (suc fuel) seen ref last h = elim (Option-cases (find ref)) [
    | inl missing ↦ absurd (ground arith)
    | inr (a, there) ↦ elim (Bool-cases (contains seen ref)) [
      | inl looped ↦ absurd (ground (arith, there, looped))
      | inr fresh ↦ elim (Relationship-cases a.relationship) [
        | inl (text, unmarked) ↦
            (let here : ref ≡ last = ground (arith, there, fresh, unmarked) in
              (0, omega arith, subst (Chain 0 ref) here (live ref text a there unmarked)))
        | inr (next, mark) ↦
            (let (n, short, c) =
                follow_sound fuel (ref ∷ seen) next last (ground (arith, there, fresh, mark)) in
              (suc n, omega (arith, short), marked n ref next last a there mark c))
      ]
    ]
  ]

  -- The references seen lie further from an end.
  abbrev Ahead : ℕ → List String → Type 0
  Ahead n seen = (k : ℕ) (x last : String) → contains seen x ≡ true → Chain k x last → n < k

  further :
      (n : ℕ) (seen : List String) (ref next last : String) (a : Attachment)
      → find ref ≡ some a
      → a.relationship ≡ superseded_by next
      → Chain n next last
      → Ahead (suc n) seen
      → Ahead n (ref ∷ seen)
  further n seen ref next last a there mark c ahead k x l h d = elim (Bool-cases (ref == x)) [
    | inl same ↦
        (let d' : Chain k ref l = subst (λ y. Chain k y l) (sym (ground (arith, eq_iff ref x))) d in
          omega (arith, Chain-length (marked n ref next last a there mark c) d'))
    | inr other ↦ omega (arith, ahead k x l (ground (arith, other)) d)
  ]

  follow_complete :
      (n fuel : ℕ) (seen : List String) (ref last : String)
      → Chain n ref last
      → n < fuel
      → Ahead n seen
      → follow find fuel seen ref ≡ some last
  unfolding follow
  follow_complete n zero seen ref last c short ahead = absurd (omega (arith, short))
  follow_complete zero (suc fuel) seen ref _ (live _ text a there unmarked) short ahead =
      elim (Bool-cases (contains seen ref)) [
        | inl looped ↦
            absurd (omega (arith, ahead 0 ref ref looped (live ref text a there unmarked)))
        | inr fresh ↦ ground (arith, there, fresh, unmarked)
      ]
  follow_complete (suc n) (suc fuel) seen ref last (marked _ _ next _ a there mark c) short ahead =
      elim (Bool-cases (contains seen ref)) [
        | inl looped ↦
            absurd
              (omega (arith, ahead (suc n) ref last looped (marked n ref next last a there mark c)))
        | inr fresh ↦
            (let later : Ahead n (ref ∷ seen) = further n seen ref next last a there mark c ahead in
              ground (
                arith,
                there,
                fresh,
                mark,
                follow_complete n fuel (ref ∷ seen) next last c (omega (arith, short)) later,
              ))
      ]

  -- _resolve_successor returns a reference exactly when at most 15 markers lead to it, and it is
  -- that of an attachment that is not marked; a chain that dangles, loops or is longer gives none.
  pub resolve_successor_iff :
      (ref last : String)
      → (resolve_successor find ref ≡ some last) ↔ ((n : ℕ) × (n < 16) × Chain n ref last)
  unfolding resolve_successor max_supersede_chain
  resolve_successor_iff ref last = (
    follow_sound 16 [] ref last,
    λ (n, short, c). follow_complete n 16 [] ref last c short (λ k x l h. absurd (ground arith)),
  )
