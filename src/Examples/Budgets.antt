-- ===== src/Examples/Budgets.antt =====
-- A budget that is crossed, and the breaker over it.
use hermes_gpt.Prelude.{◌≡◌, ◌⊎◌, refl, true, false, some, none, List, [], ◌∷◌, arith}
use hermes_gpt.Prelude.Result.{ok}
use hermes_gpt.Prelude.Rows.{select}
use hermes_gpt.Policy.{is_direct, require_level, require_mutation, effective_dry_run, level_rank}
use hermes_gpt.Plan.Ids.{is_mission_id}
use hermes_gpt.Mission.Defs.{Status, mission_transitions, MissionRow, mission_row}
use hermes_gpt.Mission.Lifecycle.Transition.Pause.{MayPause}
use hermes_gpt.Budget.Defs.{
  BudgetPolicy, Account, BudgetDb, BudgetEvent, crossing, break, envelope_status, crosses, is_break,
  get_account_row,
}
use hermes_gpt.Budget.Spend.Ledger.{
  Balanced, spend_of, recording, setting, BudgetCall, budget_calls, budget_calls-Balanced,
}
use hermes_gpt.Budget.Breaker.{
  Attempt, Db, reported, enforced, mission_pausable, has_break, same_policy, breaker_gates,
  enforce_budget_breaker, pause_request,
}
use hermes_gpt.Budget.Breaker.Gates.{AllGates, breaker_guards, broken_stays, breaker_pauses}
use hermes_gpt.Examples.Operators.{worker}
use hermes_gpt.Examples.Missions.{world, waiting}

abbrev envelope_policy : BudgetPolicy
envelope_policy = record {
  schema = "hermes.budget-policy/v1";
  unit = "tokens";
  hard_block_enabled = true;
  pause_on_cross = true;
  breaker_signal = "budget_breaker";
  authorization_class = "reversible_write";
}

abbrev no_budget : BudgetDb
no_budget = record { budget_accounts = []; budget_events = [] }

abbrev running_row : MissionRow
running_row = record waiting { status = Status.running }

abbrev calls : List BudgetCall
calls =
    setting worker (record { missions = running_row ∷ []; attachments = []; mission_events = [] })
      (record {
        mission_id = "msn-1";
        quota = 10;
        policy = envelope_policy;
        confirm = true;
        dry_run = false;
      })
      "t1"
    ∷ recording worker
        (record {
          mission_id = "msn-1";
          amount = 12;
          ref = "";
          reason_length = 0;
          confirm = true;
          dry_run = false;
        })
        "t2"
    ∷ []

no_budget-Balanced : Balanced no_budget "msn-1"
unfolding spend_of select
no_budget-Balanced = record { sum = refl; bounded = omega arith }

budget_calls-Balanced_example : Balanced (budget_calls no_budget calls) "msn-1"
budget_calls-Balanced_example = budget_calls-Balanced no_budget calls "msn-1" no_budget-Balanced

abbrev account : Account
account = record {
  mission_id = "msn-1";
  quota = 10;
  spend = 12;
  policy = envelope_policy;
  created_at = "t1";
  updated_at = "t2";
}

abbrev crossed : Db
crossed = record {
  missions = record { missions = running_row ∷ []; attachments = []; mission_events = [] };
  budget = record { budget_accounts = account ∷ []; budget_events = [] };
  spool = [];
}

abbrev attempt : Attempt
attempt = record {
  confirm = true;
  machine_gate = true;
  first = worker;
  again = worker;
  acting = worker;
  spool_works = true;
  between = λ d. d;
  world = world;
  now = "t3";
}

gates_open : breaker_gates attempt crossed "msn-1" account ≡ none
unfolding breaker_gates crosses envelope_status has_break is_direct same_policy level_rank
gates_open = refl

may_pause : MayPause worker world crossed.missions (pause_request "msn-1") running_row
unfolding require_level require_mutation effective_dry_run is_mission_id select mission_transitions
may_pause = record {
  level = refl;
  mutation = refl;
  direct = refl;
  confirm = refl;
  short = omega arith;
  named = refl;
  found = refl;
  pausable = refl;
}

breaker_guards_example :
    ((enforce_budget_breaker attempt crossed "msn-1").1 ≡ crossed)
    ⊎ ((a : Account) × (get_account_row crossed.budget "msn-1" ≡ ok a)
        × AllGates attempt crossed "msn-1" a)
breaker_guards_example = breaker_guards attempt crossed "msn-1"

breaker_pauses_example :
    ((enforce_budget_breaker attempt crossed "msn-1").0 ≡ reported enforced false)
    × ((r' : MissionRow) × (mission_row
            (enforce_budget_breaker attempt crossed "msn-1").1.missions
            "msn-1"
          ≡ some r')
        × (r'.status ≡ Status.paused))
    × (has_break (enforce_budget_breaker attempt crossed "msn-1").1.budget "msn-1" ≡ true)
unfolding get_account_row is_mission_id select mission_pausable mission_transitions
breaker_pauses_example =
    breaker_pauses attempt crossed "msn-1" account running_row refl gates_open refl may_pause refl

abbrev break_row : BudgetEvent
break_row = record {
  mission_id = "msn-1";
  amount = 0;
  spend_after = 12;
  quota = 10;
  status = crossing;
  hard_block = true;
  event_type = break;
  ref = "budget_breaker";
  created_at = "t3";
}

abbrev broken : Db
broken = record {
  missions = record {
    missions = record running_row { status = Status.paused } ∷ [];
    attachments = [];
    mission_events = [];
  };
  budget = record { budget_accounts = account ∷ []; budget_events = break_row ∷ [] };
  spool = [];
}

broken_stays_example : (enforce_budget_breaker attempt broken "msn-1").1 ≡ broken
unfolding has_break is_break mission_pausable select mission_transitions
broken_stays_example = broken_stays attempt broken "msn-1" refl refl
