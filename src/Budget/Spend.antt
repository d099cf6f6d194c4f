-- ===== src/Budget/Spend.antt =====
-- operator_mission_budget.py: hermes_budget_set and hermes_budget_record.
pub mod Ledger
use hermes_gpt.Prelude.{
  ℕ, ◌+◌, String, Bool, true, false, Option, none, some, List, [], ◌∷◌, ◌++◌, ◌==◌, ◌||◌, not, leb,
  if◌then◌else◌,
}
use hermes_gpt.Prelude.Result.{Result, ok, err, permission_error, value_error, ◌>>=◌, ◌>>◌, require}
use hermes_gpt.Prelude.Rows.{select, update}
use hermes_gpt.Policy.{
  OperatorPolicy, workspace, require_level, require_mutation, effective_dry_run,
}
use hermes_gpt.Plan.Ids.{is_mission_id}
use hermes_gpt.Mission.Defs.{MissionDb}
use hermes_gpt.Mission.Guards.{get_row}
use hermes_gpt.Mission.Attach.{is_ref}
use hermes_gpt.Budget.Defs.{
  max_quota, max_amount, max_spend, BudgetPolicy, clean_policy, clean_num, envelope_status, Account,
  BudgetEvent, spend_record, BudgetDb, account_key, get_account_row,
}

pub record SetRequest : Type 0 where
  pub mission_id : String
  pub quota : ℕ
  pub policy : BudgetPolicy
  pub confirm : Bool
  pub dry_run : Bool

pub record RecordRequest : Type 0 where
  pub mission_id : String
  pub amount : ℕ
  pub ref : String
  -- the length of the stripped reason
  pub reason_length : ℕ
  pub confirm : Bool
  pub dry_run : Bool

-- What is checked before the budget is opened for writing.
unfoldable pub set_checks : OperatorPolicy → SetRequest → Result (Unit {0})
set_checks p q = do
  require_level p workspace
  require_mutation p q.dry_run
  require (is_mission_id q.mission_id) value_error
  quota ← clean_num 1 max_quota q.quota
  require (effective_dry_run p q.dry_run || q.confirm) permission_error
  clean_policy q.policy

set_account : SetRequest → String → Account → Account
set_account q now a = record a { quota = q.quota; policy = q.policy; updated_at = now }

new_account : SetRequest → String → Account
new_account q now = record {
  mission_id = q.mission_id;
  quota = q.quota;
  spend = 0;
  policy = q.policy;
  created_at = now;
  updated_at = now;
}

-- `if existing: UPDATE ... else: INSERT`
set_over : SetRequest → String → List Account → Option Account → List Account
unfolding set_account new_account
set_over q now rows (some _) = update (account_key q.mission_id) (set_account q now) rows
set_over q now rows none = rows ++ new_account q now ∷ []

set_write : SetRequest → String → BudgetDb → BudgetDb
unfolding set_over
set_write q now db = record db {
  budget_accounts =
      set_over q now db.budget_accounts (select (account_key q.mission_id) db.budget_accounts);
}

-- The decision: may the envelope be written?
set_decide : OperatorPolicy → MissionDb → SetRequest → Result (Unit {0})
set_decide p missions q = do
  set_checks p q
  if effective_dry_run p q.dry_run then ok tt else get_row missions q.mission_id >>= (λ _. ok tt)

set_finish :
    OperatorPolicy
    → BudgetDb
    → SetRequest
    → String
    → Result (Unit {0})
    → Result (Unit {0}) × BudgetDb
unfolding set_write
set_finish p db q now (err e) = (err e, db)
set_finish p db q now (ok _) =
    if effective_dry_run p q.dry_run then (ok tt, db) else (ok tt, set_write q now db)

-- hermes_budget_set
unfoldable pub budget_set :
    OperatorPolicy → MissionDb → BudgetDb → SetRequest → String → Result (Unit {0}) × BudgetDb
unfolding set_decide set_finish
budget_set p missions db q now = set_finish p db q now (set_decide p missions q)

-- The account, when the spend may be recorded.
unfoldable pub record_decide : OperatorPolicy → BudgetDb → RecordRequest → Result Account
record_decide p db q = do
  require_level p workspace
  require_mutation p q.dry_run
  require (is_mission_id q.mission_id) value_error
  amount ← clean_num 0 max_amount q.amount
  require (q.ref == "" || is_ref q.ref) value_error
  require (leb q.reason_length 200) value_error
  require (effective_dry_run p q.dry_run || q.confirm) permission_error
  a ← get_account_row db q.mission_id
  require (leb (a.spend + q.amount) max_spend) value_error
  ok a

spent : ℕ → String → Account → Account
spent spend now a = record a { spend = spend; updated_at = now }

spend_event : RecordRequest → Account → String → BudgetEvent
spend_event q a now = record {
  mission_id = q.mission_id;
  amount = q.amount;
  spend_after = a.spend + q.amount;
  quota = a.quota;
  status = envelope_status (a.spend + q.amount) a.quota;
  hard_block = a.policy.hard_block_enabled;
  event_type = spend_record;
  ref = q.ref;
  created_at = now;
}

record_write : RecordRequest → String → Account → BudgetDb → BudgetDb
unfolding spent spend_event
record_write q now a db = record {
  budget_accounts =
      update (account_key q.mission_id) (spent (a.spend + q.amount) now) db.budget_accounts;
  budget_events = db.budget_events ++ spend_event q a now ∷ [];
}

record_finish :
    OperatorPolicy → BudgetDb → RecordRequest → String → Result Account → Result ℕ × BudgetDb
unfolding record_write
record_finish p db q now (err e) = (err e, db)
record_finish p db q now (ok a) =
    if effective_dry_run p q.dry_run
    then (ok (a.spend + q.amount), db)
    else (ok (a.spend + q.amount), record_write q now a db)

-- hermes_budget_record; the reply is its `spend_after`
unfoldable pub budget_record :
    OperatorPolicy → BudgetDb → RecordRequest → String → Result ℕ × BudgetDb
unfolding record_finish
budget_record p db q now = record_finish p db q now (record_decide p db q)
