-- ===== src/Placement/Best.antt =====
-- Which candidate score_targets puts first.
use mathlib.Core.Path.{subst}
use mathlib.Core.List.{Memᴰ}
use mathlib.Core.Option
use mathlib.Core.List.Memᴰ
use hermes_gpt.Prelude.{
  ℕ, ◌≡◌, sym, ap, ◌∙◌, true, none, some, List, [], map, inl, inr, ◌↔◌, Option-cases,
}
use hermes_gpt.Prelude.Sorts.{sort, first, sort_only, sort_all, sort_first, first_lem}
use hermes_gpt.Placement.{
  Target, Requirement, Context, Candidate, apply_hard_filters, survivors, ranks, candidate_of,
  scored, score_targets, id_le, classify_top, agent_of,
}
use hermes_gpt.Placement.Ranks.{ranks_total, ranks_trans, ranks_same, survivors_only, survivors_all}

-- A target of the list that passes every filter.
unfoldable pub Eligible : Requirement → Context → List Target → Target → Type 0
Eligible r ctx ts t = Memᴰ t ts × (apply_hard_filters t r ctx ≡ [])

-- Targets with the same id are the same.
unfoldable pub OwnIds : List Target → Type 0
OwnIds ts = (t u : Target) → Memᴰ t ts → Memᴰ u ts → t.entity_id ≡ u.entity_id → t ≡ u

module _ (r : Requirement) (ctx : Context) (total : Target → ℕ) where
  abbrev contenders : List Target → List Candidate
  contenders ts = map (candidate_of r total) (survivors r ctx (sort id_le ts))

  contenders_all :
      (ts : List Target) (t : Target)
      → Eligible r ctx ts t
      → Memᴰ (candidate_of r total t) (contenders ts)
  unfolding Eligible
  contenders_all ts t e =
      Memᴰ.map (candidate_of r total)
        (survivors_all r ctx t (sort id_le ts) (sort_all id_le t ts e.0) e.1)

  contenders_only :
      (ts : List Target) (c : Candidate)
      → Memᴰ c (contenders ts)
      → (t : Target) × (c ≡ candidate_of r total t) × Eligible r ctx ts t
  unfolding Eligible
  contenders_only ts c m =
      let found = Memᴰ.of_map (candidate_of r total) (survivors r ctx (sort id_le ts)) m in
      let passed = survivors_only r ctx found.0 (sort id_le ts) found.1 in
      (found.0, sym found.2, (sort_only id_le found.0 ts passed.0, passed.1))

  -- Where a target of the list passes every filter, the top candidate is the entry of a target of the
  -- list that passes every filter, and `ranks` puts it not after the entry of that target.
  pub score_targets_best :
      (ts : List Target) (t : Target)
      → Eligible r ctx ts t
      → (best : Target) × ((score_targets r ctx total ts).top_candidate
          ≡ some (candidate_of r total best))
        × Eligible r ctx ts best
        × (ranks (candidate_of r total best) (candidate_of r total t) ≡ true)
  unfolding score_targets scored
  score_targets_best ts t e =
      let top =
        sort_first ranks ranks_total ranks_trans (contenders ts) (candidate_of r total t)
          (contenders_all ts t e) in
      let found = contenders_only ts top.0 top.2 in
      (
        found.0,
        top.1 ∙ ap some found.1,
        found.2,
        subst (λ c. ranks c (candidate_of r total t) ≡ true) found.1 top.3,
      )

  top_only :
      (ts : List Target) (c : Candidate)
      → first (scored r ctx total ts) ≡ some c
      → (t : Target) × (c ≡ candidate_of r total t) × Eligible r ctx ts t
  unfolding scored
  top_only ts c h =
      contenders_only ts c
        (sort_only ranks c (contenders ts) (first_lem c (sort ranks (contenders ts)) h))

  -- The top of the one list is that of the other, where the one has a top.
  same_top :
      (ts us : List Target)
      → OwnIds ts
      → ((t : Target) → Memᴰ t ts ↔ Memᴰ t us)
      → (c : Candidate) → first (scored r ctx total ts) ≡ some c
      → first (scored r ctx total us) ≡ some c
  unfolding OwnIds Eligible score_targets candidate_of
  same_top ts us own same c h =
      let one = top_only ts c h in
      let other = score_targets_best us one.0 ((same one.0).0 one.2.0, one.2.1) in
      let back = score_targets_best ts other.0 ((same other.0).1 other.2.0, other.2.1) in
      let first_of_ts =
        Option.some-injective (candidate_of r total back.0) (candidate_of r total one.0)
          (sym back.1 ∙ h ∙ ap some one.1) in
      let id =
        ranks_same (candidate_of r total other.0) (candidate_of r total one.0) other.3
          (subst (λ d. ranks d (candidate_of r total other.0) ≡ true) first_of_ts back.3) in
      other.1
      ∙ ap (λ t. some (candidate_of r total t))
          (own other.0 one.0 ((same other.0).1 other.2.0) one.2.0 id)
      ∙ ap some (sym one.1)

  no_top :
      (ts us : List Target)
      → ((t : Target) → Memᴰ t ts ↔ Memᴰ t us)
      → first (scored r ctx total ts) ≡ none
      → first (scored r ctx total us) ≡ none
  unfolding Eligible score_targets
  no_top ts us same h = elim (Option-cases (first (scored r ctx total us))) [
    | inl k ↦ k
    | inr (c, k) ↦
        let one = top_only us c k in
        let other = score_targets_best ts one.0 ((same one.0).1 one.2.0, one.2.1) in
        absurd (Option.none-ne-some (candidate_of r total other.0) (sym h ∙ other.1))
  ]

  -- Where targets with the same id are the same, the classification, the agent and the top candidate
  -- do not depend on the order of the list, or on how often a target stands in it.
  pub score_targets_unordered :
      (ts us : List Target)
      → OwnIds ts
      → ((t : Target) → Memᴰ t ts ↔ Memᴰ t us)
      → ((score_targets r ctx total ts).top_candidate
          ≡ (score_targets r ctx total us).top_candidate)
        × ((score_targets r ctx total ts).classification
            ≡ (score_targets r ctx total us).classification)
        × ((score_targets r ctx total ts).assigned_agent
            ≡ (score_targets r ctx total us).assigned_agent)
  unfolding score_targets
  score_targets_unordered ts us own same =
      let top : first (scored r ctx total ts) ≡ first (scored r ctx total us) =
        elim (Option-cases (first (scored r ctx total ts))) [
          | inl h ↦ h ∙ sym (no_top ts us same h)
          | inr (c, h) ↦ h ∙ sym (same_top ts us own same c h)
        ] in
      (top, ap (classify_top r) top, ap (agent_of r) top)
