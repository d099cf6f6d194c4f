-- ===== src/Placement.antt =====
-- operator_placement.py: the hard filters and score_targets, the filter and ranking of the candidates
-- for a node of a plan. A score is a sum of rounded floating-point numbers: `total` gives it for each
-- target, as a whole number of millionths, and the theorems hold for any. Weights that are infinite or
-- no numbers, which _normalize_weights lets pass, have no such scores.
pub mod Targets
pub mod Ranks
pub mod Best
use hermes_gpt.Prelude.{
  ℕ, ◌-◌, String, Bool, true, false, Option, none, some, List, [], ◌∷◌, ◌==◌, ◌&&◌, ◌||◌, not, all,
  any, leb, ltb, map, if◌then◌else◌,
}
use hermes_gpt.Prelude.Names.{contains}
use hermes_gpt.Prelude.Sorts.{sort, first}
use hermes_gpt.Prelude.Texts.{text_le}
use hermes_gpt.Plan.Node.{AuthClass, read_only, reversible_write, high_impact}

-- What _target_from_entity makes of an entity of the manifest. An absent text is empty.
pub record Target : Type 0 where
  pub entity_id : String
  pub name : String
  pub profile : String
  pub enabled : Bool
  pub reachable : Bool
  pub identity_configured : Bool
  pub features : List String
  pub authorization_ceiling : String
  pub allowed_profiles : List String
  pub workspaces : List String
  pub allow_public_actions : Bool

-- What _stance makes of the requirement of a node.
pub record Requirement : Type 0 where
  pub kind : String
  pub profile : String
  pub features : List String
  pub authorization_class : AuthClass
  pub workspace : String

-- An item of `ctx["concurrency"]`. An item whose value is empty counts as absent.
pub record Slot : Type 0 where
  pub key : String
  pub max_in_progress : ℕ
  pub in_progress : ℕ

pub record Context : Type 0 where
  pub concurrency : List Slot
  pub forbidden_actions : List String

pub data Optout : Type 0 where
  disabled unreachable identity_unconfigured required_features_missing : Optout
  auth_ceiling_exceeded profile_out_of_scope workspace_out_of_scope : Optout
  concurrency_full forbidden_action : Optout

-- AUTH_RANK
abbrev pub auth_rank : AuthClass → ℕ
auth_rank read_only = 0
auth_rank reversible_write = 1
auth_rank high_impact = 2

-- AUTH_RANK.get
abbrev rank_named : String → Option ℕ
rank_named s =
    if s == "read_only"
    then some (auth_rank read_only)
    else if s == "reversible_write"
    then some (auth_rank reversible_write)
    else if s == "high_impact"
    then some (auth_rank high_impact)
    else none

-- _auth_rank_of
abbrev pub auth_rank_of : Target → Option ℕ
auth_rank_of t = if t.authorization_ceiling == "" then none else rank_named t.authorization_ceiling

-- `concurrency.get(key)`
slot_of : List Slot → String → Option Slot
slot_of [] k = none
slot_of (s ∷ slots) k = let rest = slot_of slots k in if s.key == k then some s else rest

-- `concurrency.get(key) or concurrency.get(profile)`
slot_for : List Slot → Target → Option Slot
unfolding slot_of
slot_for slots t = elim (slot_of slots (if t.name == "" then t.entity_id else t.name)) [
  | none ↦ slot_of slots t.profile
  | some s ↦ some s
]

is_full : Option Slot → Bool
is_full none = false
is_full (some s) = ltb 0 s.max_in_progress && leb s.max_in_progress s.in_progress

is_below : Option ℕ → ℕ → Bool
is_below none required = false
is_below (some ceiling) required = ltb ceiling required

is_empty : List String → Bool
is_empty [] = true
is_empty (s ∷ names) = false

-- `optouts.append(code)` under its test
optout : Bool → Optout → List Optout → List Optout
optout test code rest = if test then code ∷ rest else rest

-- _apply_hard_filters
unfoldable pub apply_hard_filters : Target → Requirement → Context → List Optout
unfolding slot_for is_full is_below is_empty optout
apply_hard_filters t r ctx = optout (not t.enabled) disabled (
    optout (not t.reachable) unreachable (
      optout (not t.identity_configured) identity_unconfigured (
        optout (not (all (contains t.features) r.features)) required_features_missing (
          optout (is_below (auth_rank_of t) (auth_rank r.authorization_class)) auth_ceiling_exceeded
            (optout (not (r.profile == "") && not (contains t.allowed_profiles r.profile))
              profile_out_of_scope
              (optout
                (not (r.workspace == "")
                  && (not (is_empty t.workspaces) && not (contains t.workspaces r.workspace)))
                workspace_out_of_scope
                (optout (is_full (slot_for ctx.concurrency t)) concurrency_full (
                  optout (contains ctx.forbidden_actions "public" && t.allow_public_actions)
                    forbidden_action []))))))))

-- An entry of the ranking.
pub record Candidate : Type 0 where
  pub target : Target
  pub total : ℕ
  pub authorization_excess : Option ℕ

abbrev excess_over : Option ℕ → ℕ → Option ℕ
excess_over none required = none
excess_over (some ceiling) required = some (ceiling - required)

-- The entry of a target that passes the filters, where the excess is not negative.
unfoldable pub candidate_of : Requirement → (Target → ℕ) → Target → Candidate
candidate_of r total t = record {
  target = t;
  total = total t;
  authorization_excess = excess_over (auth_rank_of t) (auth_rank r.authorization_class);
}

-- `_tie`
abbrev pub tie : Option ℕ → ℕ
tie none = 9999
tie (some excess) = excess

-- `(-total, _tie)` in order, then what decides equal ones
unfoldable pub key_le : ℕ → ℕ → ℕ → ℕ → Bool → Bool
key_le total_a tie_a total_b tie_b rest =
    if ltb total_b total_a
    then true
    else if ltb total_a total_b
    then false
    else if ltb tie_a tie_b
    then true
    else if ltb tie_b tie_a
    then false
    else rest

-- `(-total, _tie, entity_id)` of the one is not after that of the other
unfoldable pub ranks : Candidate → Candidate → Bool
unfolding key_le
ranks a b =
    key_le a.total (tie a.authorization_excess) b.total (tie b.authorization_excess)
      (text_le a.target.entity_id b.target.entity_id)

-- `entity_id` of the one is not after that of the other
abbrev pub id_le : Target → Target → Bool
id_le a b = text_le a.entity_id b.entity_id

is_clear : List Optout → Bool
is_clear [] = true
is_clear (code ∷ codes) = false

-- The loop over the targets: those without an optout, in order.
unfoldable pub survivors : Requirement → Context → List Target → List Target
unfolding is_clear
survivors r ctx [] = []
survivors r ctx (t ∷ ts) =
    let rest = survivors r ctx ts in
    if is_clear (apply_hard_filters t r ctx) then t ∷ rest else rest

pub data Classification : Type 0 where
  assigned no_capable_target human_approval : Classification

-- The result. The tables that report the optouts and the scores by id are left out.
pub record Verdict : Type 0 where
  pub classification : Classification
  pub assigned_agent : String
  pub top_candidate : Option Candidate
  pub candidate_set : List Candidate

abbrev classify_top : Requirement → Option Candidate → Classification
classify_top r top =
    if r.kind == "approval"
    then human_approval
    else elim top [ none ↦ no_capable_target | some _ ↦ assigned ]

abbrev agent_of : Requirement → Option Candidate → String
agent_of r top = if r.kind == "approval" then "owner" else elim top [ none ↦ "" | some _ ↦ "auto" ]

-- The survivors of the filters as candidates, best first.
unfoldable pub scored : Requirement → Context → (Target → ℕ) → List Target → List Candidate
scored r ctx total ts = sort ranks (map (candidate_of r total) (survivors r ctx (sort id_le ts)))

abbrev verdict_of : Requirement → List Candidate → Verdict
verdict_of r candidates = record {
  classification = classify_top r (first candidates);
  assigned_agent = agent_of r (first candidates);
  top_candidate = first candidates;
  candidate_set = candidates;
}

-- score_targets
unfoldable pub score_targets : Requirement → Context → (Target → ℕ) → List Target → Verdict
score_targets r ctx total ts = verdict_of r (scored r ctx total ts)
