-- ===== src/Budget/Breaker.antt =====
-- operator_mission_budget.py: enforce_budget_breaker, which pauses a mission whose spend crosses its
-- envelope through hermes_mission_transition, spools one attention envelope and records a break.
pub mod Gates
use hermes_gpt.Prelude.{
  ℕ, String, Bool, true, false, Option, none, some, List, [], ◌∷◌, ◌++◌, ◌==◌, ◌&&◌, ◌||◌, not, any,
  eqb, if◌then◌else◌,
}
use hermes_gpt.Prelude.Result.{Result, Error, ok, err, ◌>>=◌}
use hermes_gpt.Policy.{OperatorPolicy, is_direct, level_rank}
use hermes_gpt.Mission.Defs.{
  Status, same_status, mission_transitions, MissionRow, MissionDb, mission_row,
}
use hermes_gpt.Mission.Guards.{World}
use hermes_gpt.Mission.Lifecycle.{Request, Reply}
use hermes_gpt.Mission.Lifecycle.Transition.{transition}
use hermes_gpt.Budget.Defs.{
  EnvelopeStatus, envelope_status, crosses, Account, BudgetEvent, break, is_break, BudgetDb,
  get_account_row,
}

-- The reason codes.
pub data Reason : Type 0 where
  not_crossing disabled confirm_required hard_block_gate_off not_enabled not_direct : Reason
  policy_changed not_pausable already_enforced enforced : Reason

-- What the controller's spool receives.
pub record AttentionEnvelope : Type 0 where
  pub mission_id : String
  pub proposed_action : String
  pub reasons : List Reason

pub record Db : Type 0 where
  pub missions : MissionDb
  pub budget : BudgetDb
  pub spool : List AttentionEnvelope

-- One call: its confirmation, the machine gate, the three snapshots of the operator policy that it
-- takes, whether the spool can be written, and what other writers do between its reads and its
-- pause.
pub record Attempt : Type 0 where
  pub confirm : Bool
  pub machine_gate : Bool
  pub first : OperatorPolicy
  pub again : OperatorPolicy
  pub acting : OperatorPolicy
  pub spool_works : Bool
  pub between : Db → Db
  pub world : World
  pub now : String

pub data Outcome : Type 0 where
  rejected : Error → Outcome
  -- the reason, and `need_attention`
  reported : Reason → Bool → Outcome
  -- BudgetSpoolFailure, which leaves the tool as an exception
  signal_lost : Outcome

-- _mission_pausable; `none` stands for a missing mission
unfoldable pub mission_pausable : Option MissionRow → Bool
mission_pausable none = false
mission_pausable (some r) = mission_transitions r.status Status.paused

-- _latest_break_row finds one
unfoldable pub has_break : BudgetDb → String → Bool
has_break db m = any (λ e. e.mission_id == m && is_break e.event_type) db.budget_events

is_paused : Option MissionRow → Bool
is_paused none = false
is_paused (some r) = same_status r.status Status.paused

-- the comparison of two snapshots
unfoldable pub same_policy : OperatorPolicy → OperatorPolicy → Bool
same_policy p r =
    (if p.enabled then r.enabled else not r.enabled)
    && ((if is_direct p.apply_mode then is_direct r.apply_mode else not (is_direct r.apply_mode))
        && eqb (level_rank p.level) (level_rank r.level))

-- The gates in their order; `none` lets the breaker act.
unfoldable pub breaker_gates : Attempt → Db → String → Account → Option Reason
unfolding is_paused
breaker_gates t db m a =
    if not (crosses (envelope_status a.spend a.quota))
    then some not_crossing
    else if not (a.policy.hard_block_enabled && a.policy.pause_on_cross)
    then some disabled
    else if has_break db.budget m
        && (is_paused (mission_row db.missions m)
            || not (mission_pausable (mission_row db.missions m)))
    then some already_enforced
    else if not t.confirm
    then some confirm_required
    else if not t.machine_gate
    then some hard_block_gate_off
    else if not t.first.enabled
    then some not_enabled
    else if not (is_direct t.first.apply_mode)
    then some not_direct
    else if not (same_policy t.first t.again)
    then some policy_changed
    else none

abbrev pub pause_request : String → Request
pause_request m = record { mission_id = m; text_length = 14; confirm = true; dry_run = false }

succeeded : Result Reply → Bool
succeeded (ok _) = true
succeeded (err _) = false

-- the pause: has it been made, and the missions after it
pause : Attempt → String → Bool → MissionDb → Bool × MissionDb
unfolding succeeded
pause t m false missions = (false, missions)
pause t m true missions =
    let (reply, missions') =
      transition t.acting t.world missions (pause_request m) (some Status.paused) t.now in
    (succeeded reply, missions')

attention : String → Bool → AttentionEnvelope
attention m paused = record {
  mission_id = m;
  proposed_action = if paused then "pause_mission" else "attention";
  reasons = if paused then [] else not_pausable ∷ [];
}

break_event : String → Account → String → BudgetEvent
break_event m a now = record {
  mission_id = m;
  amount = 0;
  spend_after = a.spend;
  quota = a.quota;
  status = envelope_status a.spend a.quota;
  hard_block = a.policy.hard_block_enabled;
  event_type = break;
  ref = "budget_breaker";
  created_at = now;
}

-- The signal and the record, after the pause.
signal : Attempt → String → Account → Bool → Db → Outcome × Db
unfolding attention break_event
signal t m a paused db =
    if t.spool_works
    then (
      if paused then reported enforced false else reported not_pausable true,
      record db {
        spool = db.spool ++ attention m paused ∷ [];
        budget = record db.budget {
          budget_events = db.budget.budget_events ++ break_event m a t.now ∷ [];
        };
      },
    )
    else (signal_lost, db)

-- The actions, on the database as it is when the pause is made.
unfoldable pub breaker_act : Attempt → String → Account → Bool → Db → Outcome × Db
unfolding pause signal
breaker_act t m a pausable db =
    let (paused, missions) = pause t m pausable db.missions in
    signal t m a paused (record db { missions = missions })

breaker_finish : Attempt → Db → String → Account → Option Reason → Outcome × Db
breaker_finish t db m a (some reason) = (reported reason false, db)
breaker_finish t db m a none =
    breaker_act t m a (mission_pausable (mission_row db.missions m)) (t.between db)

breaker_over : Attempt → Db → String → Result Account → Outcome × Db
unfolding breaker_finish
breaker_over t db m (err e) = (rejected e, db)
breaker_over t db m (ok a) = breaker_finish t db m a (breaker_gates t db m a)

-- enforce_budget_breaker
unfoldable pub enforce_budget_breaker : Attempt → Db → String → Outcome × Db
unfolding breaker_over
enforce_budget_breaker t db m = breaker_over t db m (get_account_row db.budget m)
