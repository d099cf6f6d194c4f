-- ===== src/Placement/Targets.antt =====
-- operator_placement.py: the targets of score_targets from the entities of the capability manifest.
use hermes_gpt.Prelude.{
  ℕ, String, Bool, true, false, List, [], ◌∷◌, ◌++◌, ◌==◌, length, leb, if◌then◌else◌,
}
use hermes_gpt.Prelude.Result.{Result, ok, err, value_error}
use hermes_gpt.Prelude.Sorts.{sort}
use hermes_gpt.Placement.{Target, id_le}

-- An entity of the manifest: its texts after _sanitize and its lists after _clean_str_list, with an
-- absent one empty. `is_described` is `model or skills or skill_count`.
pub record Entity : Type 0 where
  pub entity_kind : String
  pub entity_id : String
  pub name : String
  pub enabled : Bool
  pub identity_configured : Bool
  pub is_described : Bool
  pub authorization_ceiling : String
  pub allowed_profiles : List String
  pub features : List String
  pub workspaces : List String
  pub profiles : List String
  pub allow_public_actions : Bool

has_names : List String → Bool
has_names [] = false
has_names (s ∷ names) = true

fabric_node : Entity → Target
fabric_node e = record {
  entity_id = e.entity_id;
  name = e.name;
  profile = "";
  enabled = e.enabled;
  reachable = e.enabled;
  identity_configured = e.enabled;
  features = e.features;
  authorization_ceiling = e.authorization_ceiling;
  allowed_profiles = e.allowed_profiles;
  workspaces = e.workspaces;
  allow_public_actions = false;
}

fleet_peer : Entity → Target
fleet_peer e = record {
  entity_id = e.entity_id;
  name = e.name;
  profile = "";
  enabled = true;
  reachable = e.identity_configured;
  identity_configured = e.identity_configured;
  features = [];
  authorization_ceiling = e.authorization_ceiling;
  allowed_profiles = e.allowed_profiles;
  workspaces = [];
  allow_public_actions = e.allow_public_actions;
}

profile_target : Entity → Target
profile_target e = record {
  entity_id = e.entity_id;
  name = e.name;
  profile = "";
  enabled = true;
  reachable = e.is_described;
  identity_configured = true;
  features = [];
  authorization_ceiling = "";
  allowed_profiles = e.name ∷ [];
  workspaces = "host" ∷ [];
  allow_public_actions = false;
}

provider_target : Entity → Target
unfolding has_names
provider_target e = record {
  entity_id = e.entity_id;
  name = e.name;
  profile = "";
  enabled = true;
  reachable = has_names e.profiles;
  identity_configured = has_names e.profiles;
  features = [];
  authorization_ceiling = "";
  allowed_profiles = e.profiles;
  workspaces = [];
  allow_public_actions = false;
}

-- _target_from_entity
unfoldable pub target_from_entity : Entity → Result Target
unfolding fabric_node fleet_peer profile_target provider_target
target_from_entity e =
    if e.entity_kind == "fabric_node"
    then ok (fabric_node e)
    else if e.entity_kind == "fleet_peer"
    then ok (fleet_peer e)
    else if e.entity_kind == "profile"
    then ok (profile_target e)
    else if e.entity_kind == "provider"
    then ok (provider_target e)
    else err value_error

-- MAX_TARGETS
abbrev pub max_targets : ℕ
max_targets = 256

abbrev pub is_crowded : List Target → Bool
is_crowded targets = leb max_targets (length targets)

-- The loop over the entities of a source. An entity of an unknown kind is passed over.
unfoldable pub read_entities : List Entity → List Target → List Target
read_entities [] targets = targets
read_entities (e ∷ entities) targets = elim (target_from_entity e) [
  | err _ ↦ read_entities entities targets
  | ok t ↦
      let grown = targets ++ t ∷ [] in
      let rest = read_entities entities grown in if is_crowded grown then grown else rest
]

-- The loop over the sources that are allowed, each with its entities.
unfoldable pub read_sources : List (List Entity) → List Target → List Target
read_sources [] targets = targets
read_sources (entities ∷ sources) targets =
    let grown = read_entities entities targets in
    let rest = read_sources sources grown in if is_crowded grown then grown else rest

-- load_manifest_targets
unfoldable pub load_manifest_targets : List (List Entity) → List Target
load_manifest_targets sources = sort id_le (read_sources sources [])
