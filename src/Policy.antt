-- ===== src/Policy.antt =====
-- operator_policy.py: the operator levels and the policy snapshot that gates every mutating tool.
mod Defs
pub mod Gates
pub use Defs.{
  Level, read_only, cron, skills, skills_config, workspace, owner, ApplyMode, dry_run_mode, direct,
  Environment, OperatorPolicy,
}
unfoldable pub use Defs.{
  level_rank, has_level, level_of, mode_of, snapshot, is_direct, effective_dry_run, require_enabled,
  require_level, require_mutation, require_owner,
}
