-- ===== src/Examples/Placements.antt =====
-- Three peers for a node that needs the feature "git": one of them has it not, and two tie.
use mathlib.Core.List.{Memᴰ}
use mathlib.Core.List.Memᴰ
use hermes_gpt.Prelude.{
  ℕ, ◌≡◌, refl, sym, ap, ◌∙◌, String, true, false, some, List, [], ◌∷◌, inl, inr, ◌==◌,
}
use hermes_gpt.Plan.Node.{reversible_write}
use hermes_gpt.Placement.{
  Target, Requirement, Context, apply_hard_filters, required_features_missing, concurrency_full,
  survivors, ranks, candidate_of, scored, score_targets, key_le,
}
use hermes_gpt.Prelude.Sorts.{sort, insert}
use hermes_gpt.Prelude.Texts.{text_le}
use hermes_gpt.Placement.Best.{Eligible, OwnIds, score_targets_best, score_targets_unordered}

peer : String → List String → String → Target
peer id features ceiling = record {
  entity_id = id;
  name = id;
  profile = "";
  enabled = true;
  reachable = true;
  identity_configured = true;
  features = features;
  authorization_ceiling = ceiling;
  allowed_profiles = "coder" ∷ [];
  workspaces = [];
  allow_public_actions = false;
}

abbrev plain : Target
plain = peer "node-a" [] "high_impact"

abbrev ample : Target
ample = peer "node-b" ("git" ∷ []) "high_impact"

abbrev apt : Target
apt = peer "node-c" ("git" ∷ []) "reversible_write"

abbrev needs_git : Requirement
needs_git = record {
  kind = "single";
  profile = "coder";
  features = "git" ∷ [];
  authorization_class = reversible_write;
  workspace = "";
}

abbrev idle : Context
idle = record { concurrency = []; forbidden_actions = [] }

abbrev busy : Context
busy = record {
  concurrency = record { key = "node-c"; max_in_progress = 2; in_progress = 2 } ∷ [];
  forbidden_actions = [];
}

abbrev even : Target → ℕ
even t = 700000

plain_optouts : apply_hard_filters plain needs_git idle ≡ required_features_missing ∷ []
unfolding apply_hard_filters peer
plain_optouts = refl

apt_optouts : apply_hard_filters apt needs_git busy ≡ concurrency_full ∷ []
unfolding apply_hard_filters peer
apt_optouts = refl

ample-Eligible : Eligible needs_git idle (plain ∷ ample ∷ apt ∷ []) ample
unfolding Eligible apply_hard_filters peer
ample-Eligible = (Memᴰ.tail (Memᴰ.head refl), refl)

-- The peer with the lower ceiling is first, though its id is later.
apt_first :
    (score_targets needs_git idle even (plain ∷ ample ∷ apt ∷ [])).top_candidate
    ≡ some (candidate_of needs_git even apt)
unfolding score_targets scored survivors apply_hard_filters ranks key_le candidate_of sort insert
    peer text_le
apt_first = refl

score_targets_best_example :
    (best : Target) × ((score_targets needs_git idle even (plain ∷ ample ∷ apt ∷ [])).top_candidate
      ≡ some (candidate_of needs_git even best))
    × Eligible needs_git idle (plain ∷ ample ∷ apt ∷ []) best
    × (ranks (candidate_of needs_git even best) (candidate_of needs_git even ample) ≡ true)
score_targets_best_example =
    score_targets_best needs_git idle even (plain ∷ ample ∷ apt ∷ []) ample ample-Eligible

true_ne_false : true ≡ false → ⊥
true_ne_false e = absurd cc

ids_differ : apt.entity_id ≡ ample.entity_id → ⊥
unfolding peer
ids_differ e = true_ne_false (ap (λ x. x == "node-c") e)

swap : (t u v : Target) → Memᴰ t (u ∷ v ∷ []) → Memᴰ t (v ∷ u ∷ [])
swap t u v m = elim (Memᴰ.cases_cons m) [
  | inl h ↦ Memᴰ.tail (Memᴰ.head h)
  | inr n ↦ Memᴰ.head (Memᴰ.eq_of_singleton n)
]

two-OwnIds : OwnIds (ample ∷ apt ∷ [])
unfolding OwnIds
two-OwnIds t u m n e = elim (Memᴰ.cases_cons m) [
  | inl h ↦ elim (Memᴰ.cases_cons n) [
    | inl k ↦ h ∙ sym k
    | inr k ↦ absurd (
        ids_differ
          (ap (λ x. x.entity_id) (sym (Memᴰ.eq_of_singleton k)) ∙ sym e ∙ ap (λ x. x.entity_id) h))
  ]
  | inr h ↦ elim (Memᴰ.cases_cons n) [
    | inl k ↦ absurd (
        ids_differ
          (ap (λ x. x.entity_id) (sym (Memᴰ.eq_of_singleton h)) ∙ e ∙ ap (λ x. x.entity_id) k))
    | inr k ↦ Memᴰ.eq_of_singleton h ∙ sym (Memᴰ.eq_of_singleton k)
  ]
]

score_targets_unordered_example :
    ((score_targets needs_git idle even (ample ∷ apt ∷ [])).top_candidate
      ≡ (score_targets needs_git idle even (apt ∷ ample ∷ [])).top_candidate)
    × ((score_targets needs_git idle even (ample ∷ apt ∷ [])).classification
        ≡ (score_targets needs_git idle even (apt ∷ ample ∷ [])).classification)
    × ((score_targets needs_git idle even (ample ∷ apt ∷ [])).assigned_agent
        ≡ (score_targets needs_git idle even (apt ∷ ample ∷ [])).assigned_agent)
score_targets_unordered_example =
    score_targets_unordered needs_git idle even (ample ∷ apt ∷ []) (apt ∷ ample ∷ []) two-OwnIds
      (λ t. (swap t ample apt, swap t apt ample))
