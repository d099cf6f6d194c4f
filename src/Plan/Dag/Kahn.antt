-- ===== src/Plan/Dag/Kahn.antt =====
-- The queue loop: what it holds between two visits, that its fuel is enough, and what it returns.
use hermes_gpt.Prelude.{
  ℕ, zero, suc, ◌+◌, ◌-◌, ◌≤◌, ◌<◌, String, ◌≡◌, refl, Option, some, List, [], ◌∷◌, ◌++◌, arith,
  ◌==◌, eq_iff, if◌then◌else◌, eqb, length, length-append, Bool-cases, inl, inr,
}
use mathlib.Core.List.{append-nil, append_assoc}
use hermes_gpt.Prelude.Names.{count, Distinct, count-append, length-le_of_Fits, count-eq_of_Fits}
use hermes_gpt.Plan.Dag.{Counts, put, release, drain}
use hermes_gpt.Plan.Dag.Arcs.{Arcs, children, pending, pending-visit}

-- Releasing a list of children takes each off its count as often as it occurs.
release_counts :
    (cs : List String) (d : Counts) (q : List String) (x : String)
    → (release cs d q).0 x ≡ d x - count x cs
unfolding release
release_counts [] d q x = omega arith
release_counts (c ∷ cs) d q x = ground (
  arith,
  eq_iff c x,
  release_counts cs (put d c (d c - 1)) (if eqb (d c) 1 then q ++ c ∷ [] else q) x,
)

-- A name is queued, once, when its count comes down to 0.
release_queue :
    (cs : List String) (d : Counts) (q : List String) (x : String)
    → count x cs ≤ d x
    → count x (release cs d q).1
      ≡ count x q + (if eqb (count x cs) 0 then 0 else if eqb (count x cs) (d x) then 1 else 0)
unfolding release
release_queue [] d q x h = omega arith
release_queue (c ∷ cs) d q x h =
    let ih =
      release_queue cs (put d c (d c - 1)) (if eqb (d c) 1 then q ++ c ∷ [] else q) x
        (ground (arith, eq_iff c x)) in
    ground (arith, eq_iff c x, ih, count-append x q (c ∷ []))

-- With more names seen fewer parents are pending.
pending_mono :
    (seen seen' : List String)
    → ((y : String) → 0 < count y seen → 0 < count y seen')
    → (es : Arcs) (c : String) → pending seen' es c ≤ pending seen es c
pending_mono seen seen' sub [] c = omega arith
pending_mono seen seen' sub ((p, x) ∷ es) c =
    ground (arith, sub p, pending_mono seen seen' sub es c)

-- Each name of the list has all its parents before it, in `seen` or in the list.
abbrev pub Sorted : Arcs → List String → List String → Type 0
Sorted es seen [] = Unit
Sorted es seen (c ∷ cs) = (pending seen es c ≡ 0) × Sorted es (seen ++ c ∷ []) cs

Sorted-snoc :
    (es : Arcs) (seen ord : List String) (c : String)
    → Sorted es seen ord
    → pending (seen ++ ord) es c ≡ 0
    → Sorted es seen (ord ++ c ∷ [])
Sorted-snoc es seen [] c s h = (rw append-nil at h, tt)
Sorted-snoc es seen (x ∷ ord) c s h =
    (s.0, Sorted-snoc es (seen ++ x ∷ []) ord c s.1 (rw append_assoc h))

module _ (edges : String → List String) (es : Arcs) (names : List String) where
  -- Between two visits: the counts are those of the parents still to come, and the names that are
  -- listed or queued are those whose count is 0.
  pub record Inv (d : Counts) (q ord : List String) : Type 0 where
    pub degree : (c : String) → d c ≡ pending ord es c
    pub queued : (x : String) → count x (ord ++ q) ≡ (if eqb (d x) 0 then count x names else 0)
    pub sorted : Sorted es [] ord

  -- `edges` lists the children of each name, all of them among the names, which are distinct.
  pub record Graph : Type 0 where
    pub listed : (cur x : String) → count x (edges cur) ≡ count x (children cur es)
    pub known : (cur x : String) → 0 < count x (children cur es) → 0 < count x names
    pub distinct : Distinct names

  module _ (g : Graph) {d : Counts} {q ord : List String} (cur : String)
      (h : Inv d (cur ∷ q) ord) where
    next : Counts × List String
    next = release (edges cur) d q

    cur_ready : (d cur ≡ 0) × (count cur ord ≡ 0)
    cur_ready =
        ground (arith, h.queued cur, count-append cur ord (cur ∷ q), eq_iff cur cur, g.distinct cur)

    next_degree : (c : String) → next.0 c ≡ pending (ord ++ cur ∷ []) es c
    unfolding next
    next_degree c = omega (
      arith,
      release_counts (edges cur) d q c,
      g.listed cur c,
      h.degree c,
      pending-visit ord cur es c cur_ready.1,
    )

    next_queued :
        (x : String)
        → count x ((ord ++ cur ∷ []) ++ next.1) ≡ (if eqb (next.0 x) 0 then count x names else 0)
    unfolding next
    next_queued x =
        let few : count x (edges cur) ≤ d x =
          omega (arith, g.listed cur x, h.degree x, pending-visit ord cur es x cur_ready.1) in
        ground (
          arith,
          release_queue (edges cur) d q x few,
          release_counts (edges cur) d q x,
          few,
          count-append x (ord ++ cur ∷ []) (release (edges cur) d q).1,
          count-append x ord (cur ∷ []),
          count-append x ord (cur ∷ q),
          h.queued x,
          g.listed cur x,
          g.known cur x,
          g.distinct x,
        )

    next-Inv : Inv next.0 next.1 (ord ++ cur ∷ [])
    next-Inv = record {
      degree = next_degree;
      queued = next_queued;
      sorted = Sorted-snoc es [] ord cur h.sorted (omega (arith, h.degree cur, cur_ready.0));
    }

  -- What the loop ends with.
  pub record Ends (r : Option (List String)) : Type 0 where
    pub order : List String
    pub returned : r ≡ some order
    pub counts : Counts
    pub inv : Inv counts [] order

  -- Listed and queued names are names of the plan, each once.
  room :
      (g : Graph) (d : Counts) (q ord : List String)
      → Inv d q ord
      → length (ord ++ q) ≤ length names
  room g d q ord h = length-le_of_Fits (ord ++ q) names (λ x. ground (arith, h.queued x))

  module _ (g : Graph) (visit : String → Counts → List String → Counts × List String) where
    -- With at least as much fuel as there are names not yet listed, the loop ends by its test.
    pub drain-Ends :
        ((cur : String) (d : Counts) (q : List String) → visit cur d q ≡ release (edges cur) d q)
        → (fuel : ℕ) (d : Counts) (q ord : List String) → Inv d q ord
        → length names ≤ length ord + fuel
        → Ends (drain visit fuel d q ord)
    unfolding drain
    drain-Ends same zero d [] ord h enough = record {
      order = ord;
      returned = refl;
      counts = d;
      inv = h;
    }
    drain-Ends same (suc fuel) d [] ord h enough = record {
      order = ord;
      returned = refl;
      counts = d;
      inv = h;
    }
    drain-Ends same zero d (cur ∷ q) ord h enough =
        absurd (omega (arith, room g d (cur ∷ q) ord h, length-append ord (cur ∷ q)))
    drain-Ends same (suc fuel) d (cur ∷ q) ord h enough =
        drain-Ends same fuel (visit cur d q).0 (visit cur d q).1 (ord ++ cur ∷ [])
          (rw (same cur d q) (unfold next in next-Inv g cur h))
          (omega (arith, length-append ord (cur ∷ [])))

  -- The order is complete exactly when as many names were listed as there are.
  module _ {d : Counts} {ord : List String} (h : Inv d [] ord) where
    listed_names : (x : String) → count x ord ≡ (if eqb (d x) 0 then count x names else 0)
    listed_names x = omega (arith, h.queued x, count-append x ord [])

    pub complete_counts : length ord ≡ length names → (x : String) → count x ord ≡ count x names
    complete_counts e x =
        count-eq_of_Fits ord names x (λ y. ground (arith, listed_names y)) (omega arith)

    -- A name whose parents are all listed is listed itself.
    closed_under :
        (seen : List String) (x : String)
        → ((y : String) → 0 < count y seen → 0 < count y ord)
        → pending seen es x ≡ 0
        → count x ord ≡ count x names
    closed_under seen x sub free =
        ground (arith, h.degree x, pending_mono seen ord sub es x, listed_names x)

    -- If some list of the names has each name's parents before it, every name on it is listed.
    Sorted-names :
        (seen order : List String)
        → ((y : String) → 0 < count y seen → 0 < count y ord)
        → ((y : String) → 0 < count y order → 0 < count y names)
        → Sorted es seen order
        → (x : String) → 0 < count x order
        → count x ord ≡ count x names
    Sorted-names seen [] sub named s x k = absurd (omega arith)
    Sorted-names seen (c ∷ cs) sub named s x k =
        let c_listed = closed_under seen c sub s.0 in
        let c_named = named c (ground (arith, eq_iff c c)) in
        elim (Bool-cases (c == x)) [
          | inl same ↦ ground (arith, eq_iff c x, c_listed)
          | inr other ↦
              Sorted-names (seen ++ c ∷ []) cs
                (λ y k'.
                  ground
                    (arith, eq_iff c y, sub y, c_listed, c_named, count-append y seen (c ∷ [])))
                (λ y k'. named y (omega arith)) s.1 x (ground (arith, other))
        ]

    -- So if the names can be listed with each one's parents before it, the loop lists them all.
    pub complete_of_Sorted :
        (order : List String)
        → ((x : String) → count x order ≡ count x names)
        → Sorted es [] order
        → length ord ≡ length names
    complete_of_Sorted order all_names s =
        let listed : (x : String) → count x ord ≡ count x names = λ x.
          elim (Bool-cases (eqb (count x names) 0)) [
            | inl none_left ↦ ground (arith, listed_names x)
            | inr some_left ↦
                Sorted-names [] order (λ y k. absurd (omega arith))
                  (λ y k. ground (arith, all_names y)) s x (ground (arith, all_names x))
          ] in
        omega (
          arith,
          length-le_of_Fits ord names (λ x. omega (arith, listed x)),
          length-le_of_Fits names ord (λ x. omega (arith, listed x)),
        )
