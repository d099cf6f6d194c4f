-- ===== src/Prelude/Sorts.antt =====
-- Python's `sorted` as a stable insertion sort by a test "not after", and the order of texts.
use mathlib.Core.Path.{◌≡◌, refl, sym, subst}
use mathlib.Core.Logic.{◌⊎◌, inl, inr}
use mathlib.Core.Bool.{Bool, true, false}
use mathlib.Core.Option
use mathlib.Core.Option.{Option, none, some}
use mathlib.Core.List.{List, [], ◌∷◌, Memᴰ}
use mathlib.Core.List.Memᴰ
use hermes_gpt.Prelude.Tests.{if◌then◌else◌, Bool-cases}

module _ {ℓ} {A : Type ℓ} where
  abbrev pub first : List A → Option A
  first [] = none
  first (x ∷ xs) = some x

  pub first_lem : (a : A) (xs : List A) → first xs ≡ some a → Memᴰ a xs
  first_lem a [] h = absurd cc
  first_lem a (x ∷ xs) h = Memᴰ.head (Option.some-injective a x (sym h))

module _ {ℓ} {A : Type ℓ} (le : A → A → Bool) where
  unfoldable pub insert : A → List A → List A
  insert a [] = a ∷ []
  insert a (x ∷ xs) = let rest = insert a xs in if le a x then a ∷ x ∷ xs else x ∷ rest

  abbrev placed : Bool → A → A → List A → List A
  placed b a x xs = if b then a ∷ x ∷ xs else x ∷ insert a xs

  unfoldable pub sort : List A → List A
  sort [] = []
  sort (x ∷ xs) = insert x (sort xs)

  insert_only : (z a : A) (xs : List A) → Memᴰ z (insert a xs) → (z ≡ a) ⊎ Memᴰ z xs
  unfolding insert
  insert_only z a [] m = Memᴰ.cases_cons m
  insert_only z a (x ∷ xs) m = elim (Bool-cases (le a x)) [
    | inl e ↦ Memᴰ.cases_cons (subst (λ b. Memᴰ z (placed b a x xs)) e m)
    | inr e ↦ elim (Memᴰ.cases_cons (subst (λ b. Memᴰ z (placed b a x xs)) e m)) [
      | inl h ↦ inr (Memᴰ.head h)
      | inr n ↦ elim (insert_only z a xs n) [ inl h ↦ inl h | inr k ↦ inr (Memᴰ.tail k) ]
    ]
  ]

  insert_all : (z a : A) (xs : List A) → (z ≡ a) ⊎ Memᴰ z xs → Memᴰ z (insert a xs)
  unfolding insert
  insert_all z a [] (inl e) = Memᴰ.head e
  insert_all z a [] (inr m) = Memᴰ.tail m
  insert_all z a (x ∷ xs) m = elim (Bool-cases (le a x)) [
    | inl e ↦
        subst (λ b. Memᴰ z (placed b a x xs)) (sym e)
          (elim m [ inl h ↦ Memᴰ.head h | inr n ↦ Memᴰ.tail n ])
    | inr e ↦
        subst (λ b. Memᴰ z (placed b a x xs)) (sym e)
          (elim m [
            | inl h ↦ Memᴰ.tail (insert_all z a xs (inl h))
            | inr n ↦ elim (Memᴰ.cases_cons n) [
              | inl h ↦ Memᴰ.head h
              | inr k ↦ Memᴰ.tail (insert_all z a xs (inr k))
            ]
          ])
  ]

  -- A sort holds what the list holds.
  pub sort_only : (z : A) (xs : List A) → Memᴰ z (sort xs) → Memᴰ z xs
  unfolding sort
  sort_only z [] m = m
  sort_only z (x ∷ xs) m = elim (insert_only z x (sort xs) m) [
    | inl e ↦ Memᴰ.head e
    | inr n ↦ Memᴰ.tail (sort_only z xs n)
  ]

  pub sort_all : (z : A) (xs : List A) → Memᴰ z xs → Memᴰ z (sort xs)
  unfolding sort
  sort_all z [] m = m
  sort_all z (x ∷ xs) m = elim (Memᴰ.cases_cons m) [
    | inl e ↦ insert_all z x (sort xs) (inl e)
    | inr n ↦ insert_all z x (sort xs) (inr (sort_all z xs n))
  ]

  -- The head of a list is after no member.
  Least : List A → Type ℓ
  Least [] = Unit
  Least (x ∷ xs) = (y : A) → Memᴰ y xs → le x y ≡ true

  module _ (total : (a b : A) → le a b ≡ false → le b a ≡ true)
      (trans : (a b c : A) → le a b ≡ true → le b c ≡ true → le a c ≡ true) where
    insert-Least : (a : A) (xs : List A) → Least xs → Least (insert a xs)
    unfolding insert Least
    insert-Least a [] h = λ y m. absurd (Memᴰ.not-nil m)
    insert-Least a (x ∷ xs) h = elim (Bool-cases (le a x)) [
      | inl e ↦
          subst (λ b. Least (placed b a x xs)) (sym e)
            (λ y m. elim (Memᴰ.cases_cons m) [ inl k ↦ rw (k) e | inr n ↦ trans a x y e (h y n) ])
      | inr e ↦
          subst (λ b. Least (placed b a x xs)) (sym e)
            (λ y m. elim (insert_only y a xs m) [ inl k ↦ rw (k) (total a x e) | inr n ↦ h y n ])
    ]

    sort-Least : (xs : List A) → Least (sort xs)
    unfolding sort Least
    sort-Least [] = tt
    sort-Least (x ∷ xs) = insert-Least x (sort xs) (sort-Least xs)

    first_found :
        (ys : List A) (y : A)
        → Least ys
        → Memᴰ y ys
        → (z : A) × (first ys ≡ some z) × Memᴰ z ys × (le z y ≡ true)
    unfolding Least
    first_found [] y h m = absurd (Memᴰ.not-nil m)
    first_found (x ∷ xs) y h m = (
      x,
      refl,
      Memᴰ.head refl,
      elim (Memᴰ.cases_cons m) [
        | inl k ↦ rw (k) (elim (Bool-cases (le x x)) [ inl e ↦ e | inr e ↦ total x x e ])
        | inr n ↦ h y n
      ],
    )

    -- Where a list has a member, its sort has a first element, which is not after it.
    pub sort_first :
        (xs : List A) (y : A)
        → Memᴰ y xs
        → (z : A) × (first (sort xs) ≡ some z) × Memᴰ z xs × (le z y ≡ true)
    sort_first xs y m =
        let found = first_found (sort xs) y (sort-Least xs) (sort_all y xs m) in
        (found.0, found.1, sort_only found.0 xs found.2, found.3)
