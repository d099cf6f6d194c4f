-- ===== src/Plan/Node.antt =====
-- A canonical plan node, as _canonical_node of operator_mission_plan.py returns it.
use hermes_gpt.Prelude.{ℕ, String, List, Option}

-- KINDS
pub data Kind : Type 0 where
  single parallel approval : Kind

-- AUTH_CLASSES
pub data AuthClass : Type 0 where
  read_only reversible_write high_impact : AuthClass

pub record CapabilityReq : Type 0 where
  pub profile : String
  pub skills : List String
  pub authorization_class : AuthClass

pub record Budget : Type 0 where
  pub est_minutes : ℕ
  pub est_tokens : ℕ

pub record ArtifactRequirement : Type 0 where
  pub path : String
  pub min_bytes : ℕ
  pub max_bytes : Option ℕ
  pub sha256 : Option String

pub record Node : Type 0 where
  pub node_id : String
  pub kind : Kind
  pub owner : String
  pub parents : List String
  pub objective_len : ℕ
  pub objective_sha256 : String
  pub contract_ref : String
  pub contract_sha256 : String
  pub capability_req : CapabilityReq
  pub budget : Budget
  pub expected_artifacts : List String
  pub artifact_requirements : List ArtifactRequirement
