-- ===== src/Examples/Operators.antt =====
-- operator_policy.py on concrete environments.
use hermes_gpt.Prelude.{◌≡◌, refl, ◌↔◌, true, false, Bool, ◌≤◌}
use hermes_gpt.Prelude.Result.{ok, ◌>>◌}
use hermes_gpt.Policy.{
  Environment, OperatorPolicy, workspace, owner, direct, snapshot, effective_dry_run, require_level,
  require_mutation, level_rank,
}
use hermes_gpt.Policy.Gates.{direct_write_iff}

abbrev pub owner_env : Environment
owner_env = record {
  enabled = true;
  owner_active = true;
  level_name = "owner";
  mode_name = "direct";
  owner_ack = "I_UNDERSTAND_THIS_CAN_MUTATE_MY_MACHINE";
}

abbrev pub worker_env : Environment
worker_env = record owner_env { owner_active = false }

abbrev pub worker : OperatorPolicy
worker = record {
  enabled = true;
  level = workspace;
  apply_mode = direct;
  owner_active = false;
  owner_mode_ready = false;
  mutation_allowed = true;
}

abbrev pub owner_policy : OperatorPolicy
owner_policy = record {
  enabled = true;
  level = owner;
  apply_mode = direct;
  owner_active = true;
  owner_mode_ready = true;
  mutation_allowed = true;
}

worker_of_env : snapshot worker_env ≡ worker
unfolding snapshot
worker_of_env = refl

direct_write_iff_example :
    (((require_level worker workspace >> require_mutation worker false) ≡ ok tt)
      × (effective_dry_run worker false ≡ false))
    ↔ ((worker.enabled ≡ true)
        × (level_rank workspace ≤ level_rank worker.level)
        × (worker.apply_mode ≡ direct)
        × (◌≡◌ {A = Bool} false false))
direct_write_iff_example = direct_write_iff worker workspace false
