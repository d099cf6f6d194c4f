-- ===== src/Relay/Retention.antt =====
-- What _prune keeps: at most 2000 records of a target, and the newest of the retained ones.
use mathlib.Core.Path.{subst}
use hermes_gpt.Prelude.{
  ℕ, zero, suc, ◌≤◌, String, true, false, Option, none, some, List, [], ◌∷◌, ◌≡◌, refl, ◌⊎◌, inl,
  inr, arith, ltb, length, Bool-cases,
}
use hermes_gpt.Relay.{
  Delivery, State, retention_max_per_target, not_before, filter_retained, insert_newest,
  newest_first, first_of, limit_newest, prune,
}
use hermes_gpt.Relay.Accounts.Run.{delivered_to}
use hermes_gpt.Relay.Once.{delivered_to-prune}

abbrev pub In : Delivery → List Delivery → Type 0
In d [] = ⊥
In d (x ∷ xs) = (x ≡ d) ⊎ In d xs

-- No record of the list is newer than `d`.
abbrev NotNewer : Delivery → List Delivery → Type 0
NotNewer d xs = (x : Delivery) → In x xs → not_before d.sent_at x.sent_at ≡ true

abbrev IsSorted : List Delivery → Type 0
IsSorted [] = Unit
IsSorted (x ∷ xs) = NotNewer x xs × IsSorted xs

not_before_trans :
    (a b c : Option ℕ) → not_before a b ≡ true → not_before b c ≡ true → not_before a c ≡ true
not_before_trans a b none h h' = refl
not_before_trans a none (some t) h h' = absurd cc
not_before_trans none (some s) (some t) h h' = absurd cc
not_before_trans (some r) (some s) (some t) h h' = ground (arith, h, h')

not_before_total : (a b : Option ℕ) → not_before a b ≡ false → not_before b a ≡ true
not_before_total a none h = absurd cc
not_before_total none (some t) h = refl
not_before_total (some s) (some t) h = ground (arith, h)

insert-In :
    (d : Delivery) (xs : List Delivery) (x : Delivery)
    → In x (insert_newest d xs)
    → (d ≡ x) ⊎ In x xs
insert-In d [] x (inl h) = inl h
insert-In d [] x (inr none_left) = absurd none_left
insert-In d (y ∷ ys) x h = elim (Bool-cases (not_before d.sent_at y.sent_at)) [
  | inl e ↦ rw (e) at h
  | inr e ↦ elim (rw (e) at h) as (λ k. (d ≡ x) ⊎ In x (y ∷ ys)) [
    | inl here ↦ inr (inl here)
    | inr there ↦ elim (insert-In d ys x there) [ inl same ↦ inl same | inr kept ↦ inr (inr kept) ]
  ]
]

In-insert_later :
    (d y : Delivery) (ys : List Delivery) (x : Delivery)
    → (d ≡ x) ⊎ In x (y ∷ ys)
    → ((d ≡ x) ⊎ In x ys → In x (insert_newest d ys))
    → In x (y ∷ insert_newest d ys)
In-insert_later d y ys x (inl new) next = inr (next (inl new))
In-insert_later d y ys x (inr (inl here)) next = inl here
In-insert_later d y ys x (inr (inr there)) next = inr (next (inr there))

In-insert :
    (d : Delivery) (xs : List Delivery) (x : Delivery)
    → (d ≡ x) ⊎ In x xs
    → In x (insert_newest d xs)
In-insert d [] x h = h
In-insert d (y ∷ ys) x h = elim (Bool-cases (not_before d.sent_at y.sent_at)) [
  | inl e ↦ rw (e) h
  | inr e ↦ rw (e) (In-insert_later d y ys x h (In-insert d ys x))
]

In-newest_first : (ds : List Delivery) (x : Delivery) → In x ds → In x (newest_first ds)
In-newest_first [] x h = h
In-newest_first (d ∷ ds) x (inl h) = In-insert d (newest_first ds) x (inl h)
In-newest_first (d ∷ ds) x (inr h) = In-insert d (newest_first ds) x (inr (In-newest_first ds x h))

before_both :
    (d y : Delivery) (ys : List Delivery)
    → not_before d.sent_at y.sent_at ≡ true
    → NotNewer y ys
    → NotNewer d (y ∷ ys)
before_both d y ys e first x (inl here) = subst (λ z. not_before d.sent_at z.sent_at ≡ true) here e
before_both d y ys e first x (inr there) =
    not_before_trans d.sent_at y.sent_at x.sent_at e (first x there)

after_first :
    (d y : Delivery) (ys : List Delivery) (x : Delivery)
    → not_before d.sent_at y.sent_at ≡ false
    → NotNewer y ys
    → (d ≡ x) ⊎ In x ys
    → not_before y.sent_at x.sent_at ≡ true
after_first d y ys x e first (inl new) =
    subst (λ z. not_before y.sent_at z.sent_at ≡ true) new (not_before_total d.sent_at y.sent_at e)
after_first d y ys x e first (inr there) = first x there

insert-IsSorted : (d : Delivery) (xs : List Delivery) → IsSorted xs → IsSorted (insert_newest d xs)
insert-IsSorted d [] s = ((λ x h. absurd h), tt)
insert-IsSorted d (y ∷ ys) (first, rest) = elim (Bool-cases (not_before d.sent_at y.sent_at)) [
  | inl e ↦ rw (e) (before_both d y ys e first, (first, rest))
  | inr e ↦
      rw (e) (λ x h. after_first d y ys x e first (insert-In d ys x h), insert-IsSorted d ys rest)
]

newest_first-IsSorted : (ds : List Delivery) → IsSorted (newest_first ds)
newest_first-IsSorted [] = tt
newest_first-IsSorted (d ∷ ds) = insert-IsSorted d (newest_first ds) (newest_first-IsSorted ds)

length-first_of : (n : ℕ) (xs : List Delivery) → length (first_of n xs) ≤ n
length-first_of zero xs = omega arith
length-first_of (suc n) [] = omega arith
length-first_of (suc n) (x ∷ xs) = omega (arith, length-first_of n xs)

first_of-In : (n : ℕ) (xs : List Delivery) (x : Delivery) → In x (first_of n xs) → In x xs
first_of-In zero xs x h = absurd h
first_of-In (suc n) [] x h = h
first_of-In (suc n) (y ∷ ys) x (inl h) = inl h
first_of-In (suc n) (y ∷ ys) x (inr h) = inr (first_of-In n ys x h)

-- What the front of a sorted list leaves out is newer than nothing in it.
first_of_newest :
    (n : ℕ) (xs : List Delivery) (kept out : Delivery)
    → IsSorted xs
    → In kept (first_of n xs)
    → In out xs
    → In out (first_of n xs) ⊎ (not_before kept.sent_at out.sent_at ≡ true)
first_of_newest zero xs kept out s k o = absurd k
first_of_newest (suc n) [] kept out s k o = absurd k
first_of_newest (suc n) (y ∷ ys) kept out s k (inl here) = inl (inl here)
first_of_newest (suc n) (y ∷ ys) kept out s (inl here) (inr there) =
    inr (subst (λ z. not_before z.sent_at out.sent_at ≡ true) here (s.0 out there))
first_of_newest (suc n) (y ∷ ys) kept out s (inr k) (inr there) =
    elim (first_of_newest n ys kept out s.1 k there) [
      | inl also ↦ inl (inr also)
      | inr newer ↦ inr newer
    ]

limit_newest_lem :
    (ds : List Delivery)
    → (length (limit_newest ds) ≤ retention_max_per_target)
      × ((kept out : Delivery)
          → In kept (limit_newest ds)
          → In out ds
          → In out (limit_newest ds) ⊎ (not_before kept.sent_at out.sent_at ≡ true))
limit_newest_lem ds = elim (Bool-cases (ltb retention_max_per_target (length ds))) [
  | inr few ↦ rw (few) (ground (arith, few), λ kept out k o. inl o)
  | inl many ↦ rw (many) (
    length-first_of retention_max_per_target (newest_first ds),
    λ kept out k o.
        first_of_newest retention_max_per_target (newest_first ds) kept out
          (newest_first-IsSorted ds) k (In-newest_first ds out o),
  )
]

-- The pruned state records at most 2000 deliveries for a target, and no delivery that it records is
-- older than a retained one that it leaves out.
pub prune_keeps_newest :
    (state : State) (now : ℕ) (key : String) (kept out : Delivery)
    → In kept (delivered_to (prune state now) key)
    → In out (filter_retained now (delivered_to state key))
    → (length (delivered_to (prune state now) key) ≤ 2000)
      × (In out (delivered_to (prune state now) key) ⊎ (not_before kept.sent_at out.sent_at ≡ true))
prune_keeps_newest state now key kept out k o =
    let ds = filter_retained now (delivered_to state key) in
    let same = delivered_to-prune state now key in
    let limits = limit_newest_lem ds in
    rw (same) (limits.0, limits.1 kept out (subst (In kept) same k) o)
