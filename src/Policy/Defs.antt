-- ===== src/Policy/Defs.antt =====
-- operator_policy.py: LEVELS, level_rank, has_level and the class OperatorPolicy.
-- The paths and profiles of the policy are not used by the modelled tools and are left out.
use hermes_gpt.Prelude.{ℕ, String, Bool, true, false, not, ◌&&◌, ◌==◌, leb, if◌then◌else◌}
use hermes_gpt.Prelude.Result.{Result, ok, permission_error, ◌>>◌, require}

pub data Level : Type 0 where
  read_only cron skills skills_config workspace owner : Level

-- Position in LEVELS.
unfoldable pub level_rank : Level → ℕ
level_rank read_only = 0
level_rank cron = 1
level_rank skills = 2
level_rank skills_config = 3
level_rank workspace = 4
level_rank owner = 5

-- has_level(required, actual)
unfoldable pub has_level : Level → Level → Bool
unfolding level_rank
has_level required actual = leb (level_rank required) (level_rank actual)

-- The name of a level in LEVELS; any other name counts as "read_only".
unfoldable pub level_of : String → Level
level_of name =
    if name == "cron"
    then cron
    else if name == "skills"
    then skills
    else if name == "skills_config"
    then skills_config
    else if name == "workspace"
    then workspace
    else if name == "owner"
    then owner
    else read_only

pub data ApplyMode : Type 0 where
  dry_run_mode direct : ApplyMode

unfoldable pub mode_of : String → ApplyMode
mode_of name = if name == "direct" then direct else dry_run_mode

-- The environment as __init__ reads it: the truthy switches by `env_truthy`, the level and the
-- mode after `.strip().lower()` and with their defaults, the acknowledgement verbatim.
pub record Environment : Type 0 where
  pub enabled : Bool
  pub owner_active : Bool
  pub level_name : String
  pub mode_name : String
  pub owner_ack : String

pub record OperatorPolicy : Type 0 where
  pub enabled : Bool
  pub level : Level
  pub apply_mode : ApplyMode
  pub owner_active : Bool
  pub owner_mode_ready : Bool
  pub mutation_allowed : Bool

abbrev owner_ack_required_value : String
owner_ack_required_value = "I_UNDERSTAND_THIS_CAN_MUTATE_MY_MACHINE"

unfoldable pub is_direct : ApplyMode → Bool
is_direct direct = true
is_direct dry_run_mode = false

is_owner : Level → Bool
is_owner owner = true
is_owner _ = false

-- "owner" without OWNER_ACTIVE falls back to "workspace".
demote : Bool → Level → Level
demote false owner = workspace
demote _ level = level

-- OperatorPolicy.__init__
unfoldable pub snapshot : Environment → OperatorPolicy
unfolding level_of mode_of demote is_owner is_direct has_level
snapshot e =
    let level = demote e.owner_active (level_of e.level_name) in
    let mode = mode_of e.mode_name in
    record {
      enabled = e.enabled;
      level = level;
      apply_mode = mode;
      owner_active = e.owner_active;
      owner_mode_ready =
          e.enabled
          && (e.owner_active && (is_owner level && e.owner_ack == owner_ack_required_value));
      mutation_allowed = e.enabled && (is_direct mode && has_level cron level);
    }

-- effective_dry_run(requested_dry_run)
unfoldable pub effective_dry_run : OperatorPolicy → Bool → Bool
unfolding is_direct
effective_dry_run p requested = if requested then true else not (is_direct p.apply_mode)

unfoldable pub require_enabled : OperatorPolicy → Result (Unit {0})
require_enabled p = require p.enabled permission_error

unfoldable pub require_level : OperatorPolicy → Level → Result (Unit {0})
unfolding require_enabled has_level
require_level p required = do
  require_enabled p
  require (has_level required p.level) permission_error

unfoldable pub require_mutation : OperatorPolicy → Bool → Result (Unit {0})
unfolding effective_dry_run
require_mutation p dry_run =
    if effective_dry_run p dry_run
    then ok tt
    else require (p.enabled && is_direct p.apply_mode) permission_error

unfoldable pub require_owner : OperatorPolicy → Bool → Result (Unit {0})
unfolding require_level effective_dry_run
require_owner p dry_run = do
  require_level p owner
  require p.owner_mode_ready permission_error
  if effective_dry_run p dry_run then ok tt else require (is_direct p.apply_mode) permission_error
