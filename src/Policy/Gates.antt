-- ===== src/Policy/Gates.antt =====
-- What the gates of operator_policy.py let through.
use hermes_gpt.Prelude.{◌≡◌, ◌↔◌, ◌≤◌, Bool, String, refl, eq_iff, true, false, arith}
use hermes_gpt.Prelude.Result.{ok, ◌>>◌}
use hermes_gpt.Policy.Defs.{
  Level, Environment, OperatorPolicy, snapshot, level_of, owner, effective_dry_run, direct,
  level_rank, require_level, require_mutation,
}

-- Only the name "owner" reads as the owner level.
level_of-owner : (name : String) → level_of name ≡ owner → name ≡ "owner"
unfolding level_of
level_of-owner name h = ground (arith, eq_iff name "owner")

-- A snapshot is ready for Owner Mode exactly when its environment is enabled, has the owner switch
-- on, names the level "owner" and carries the acknowledgement text.
pub owner_mode_ready_iff :
    (e : Environment)
    → ((snapshot e).owner_mode_ready ≡ true) ↔ (
        (e.enabled ≡ true)
        × (e.owner_active ≡ true)
        × (e.level_name ≡ "owner")
        × (e.owner_ack ≡ "I_UNDERSTAND_THIS_CAN_MUTATE_MY_MACHINE"))
unfolding snapshot
owner_mode_ready_iff e = (
  λ h. (
    ground arith,
    ground arith,
    level_of-owner e.level_name (ground arith),
    (eq_iff _ _).0 (ground arith),
  ),
  λ h. rw (h.0, h.1, h.2, h.3) refl,
)

-- A call that the level and mutation gates let through to a real write (not a dry run) is exactly
-- one whose policy is enabled, at or above the required level and in direct mode, and that did not
-- ask for a dry run.
pub direct_write_iff :
    (p : OperatorPolicy) (required : Level) (dry_run : Bool)
    → (((require_level p required >> require_mutation p dry_run) ≡ ok tt)
        × (effective_dry_run p dry_run ≡ false))
      ↔ ((p.enabled ≡ true)
          × (level_rank required ≤ level_rank p.level)
          × (p.apply_mode ≡ direct)
          × (dry_run ≡ false))
unfolding require_level require_mutation
direct_write_iff p required dry_run = (λ h. ground arith, λ h. (ground arith, ground arith))
