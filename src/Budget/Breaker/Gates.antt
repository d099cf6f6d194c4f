-- ===== src/Budget/Breaker/Gates.antt =====
-- When the breaker acts, and what it leaves.
use hermes_gpt.Prelude.{
  String, true, false, Option, none, some, List, [], ◌∷◌, ◌++◌, ◌≡◌, refl, ap, ◌⊎◌, inl, inr, arith,
  ◌==◌, ◌&&◌, any, eq_refl, Bool-cases,
}
use hermes_gpt.Prelude.Result.{Result, ok, err}
use hermes_gpt.Policy.{is_direct}
use hermes_gpt.Mission.Defs.{Status, MissionRow, MissionDb, mission_row}
use hermes_gpt.Mission.Lifecycle.{Reply}
use hermes_gpt.Mission.Lifecycle.Transition.{transition}
use hermes_gpt.Mission.Lifecycle.Transition.Pause.{MayPause, transition_pauses}
use hermes_gpt.Budget.Defs.{
  envelope_status, crosses, Account, BudgetEvent, is_break, get_account_row,
}
use hermes_gpt.Budget.Breaker.{
  Attempt, Db, reported, enforced, Reason, mission_pausable, has_break, same_policy, breaker_gates,
  breaker_act, breaker_finish, breaker_over, pause_request, succeeded, pause, signal, break_event,
  enforce_budget_breaker,
}

-- Every gate of the breaker.
pub record AllGates (t : Attempt) (db : Db) (m : String) (a : Account) : Type 0 where
  pub crossing : crosses (envelope_status a.spend a.quota) ≡ true
  pub hard_block : (a.policy.hard_block_enabled && a.policy.pause_on_cross) ≡ true
  pub fresh :
      (has_break db.budget m ≡ false) ⊎ (mission_pausable (mission_row db.missions m) ≡ true)
  pub confirmed : t.confirm ≡ true
  pub machine : t.machine_gate ≡ true
  pub enabled : t.first.enabled ≡ true
  pub direct : is_direct t.first.apply_mode ≡ true
  pub unchanged : same_policy t.first t.again ≡ true

gates_passed :
    (t : Attempt) (db : Db) (m : String) (a : Account)
    → breaker_gates t db m a ≡ none
    → AllGates t db m a
unfolding breaker_gates
gates_passed t db m a h = record {
  crossing = ground arith;
  hard_block = ground arith;
  fresh = elim (Bool-cases (has_break db.budget m)) [
    | inr none_yet ↦ inl none_yet
    | inl broken ↦ inr (ground (arith, broken))
  ];
  confirmed = ground arith;
  machine = ground arith;
  enabled = ground arith;
  direct = ground arith;
  unchanged = ground arith;
}

finish_guards :
    (t : Attempt) (db : Db) (m : String) (a : Account) (g : Option Reason)
    → breaker_gates t db m a ≡ g
    → ((breaker_finish t db m a g).1 ≡ db) ⊎ AllGates t db m a
unfolding breaker_finish
finish_guards t db m a (some reason) e = inl refl
finish_guards t db m a none e = inr (gates_passed t db m a e)

over_guards :
    (t : Attempt) (db : Db) (m : String) (found : Result Account)
    → ((breaker_over t db m found).1 ≡ db) ⊎ ((a : Account) × (found ≡ ok a) × AllGates t db m a)
unfolding breaker_over
over_guards t db m (err e) = inl refl
over_guards t db m (ok a) = elim (finish_guards t db m a (breaker_gates t db m a) refl) [
  | inl same ↦ inl same
  | inr gates ↦ inr (a, refl, gates)
]

-- enforce_budget_breaker changes nothing, no mission, no event, no signal, unless the spend crosses
-- the envelope, the policy of the envelope asks for the pause, no break is in force, the call is
-- confirmed, the machine gate is on, and two equal snapshots of the operator policy are enabled and
-- direct.
pub breaker_guards :
    (t : Attempt) (db : Db) (m : String)
    → ((enforce_budget_breaker t db m).1 ≡ db)
      ⊎ ((a : Account) × (get_account_row db.budget m ≡ ok a) × AllGates t db m a)
unfolding enforce_budget_breaker
breaker_guards t db m = over_guards t db m (get_account_row db.budget m)

-- Once a break is recorded and the mission is paused, or can not be paused, no further call changes
-- anything.
pub broken_stays :
    (t : Attempt) (db : Db) (m : String)
    → has_break db.budget m ≡ true
    → mission_pausable (mission_row db.missions m) ≡ false
    → (enforce_budget_breaker t db m).1 ≡ db
broken_stays t db m broken stuck = elim (breaker_guards t db m) [
  | inl same ↦ same
  | inr (a, found, gates) ↦ absurd (elim gates.fresh [
    | inl none_yet ↦ ground (arith, broken, none_yet)
    | inr pausable ↦ ground (arith, stuck, pausable)
  ])
]

has_break_appended :
    (events : List BudgetEvent) (m : String) (e : BudgetEvent)
    → (e.mission_id == m) ≡ true
    → is_break e.event_type ≡ true
    → any (λ x. x.mission_id == m && is_break x.event_type) (events ++ e ∷ []) ≡ true
has_break_appended [] m e key kind = ground (arith, key, kind)
has_break_appended (x ∷ events) m e key kind =
    ground (arith, has_break_appended events m e key kind)

abbrev paused_missions : Attempt → Db → String → MissionDb
paused_missions t db m =
    (transition t.acting t.world (t.between db).missions (pause_request m) (some Status.paused)
      t.now).1

pause_made :
    (t : Attempt) (db : Db) (m : String) (reply : Reply)
    → (transition t.acting t.world
        (t.between db).missions
        (pause_request m)
        (some Status.paused)
        t.now).0
      ≡ ok reply
    → pause t m true (t.between db).missions ≡ (true, paused_missions t db m)
unfolding pause succeeded
pause_made t db m reply replied = ap (λ x. (succeeded x, paused_missions t db m)) replied

signalled :
    (t : Attempt) (m : String) (a : Account) (db : Db)
    → t.spool_works ≡ true
    → ((signal t m a true db).0 ≡ reported enforced false)
      × ((signal t m a true db).1.missions ≡ db.missions)
      × (has_break (signal t m a true db).1.budget m ≡ true)
unfolding signal has_break
signalled t m a db works = (
  rw works refl,
  rw works refl,
  rw works (
      has_break_appended db.budget.budget_events m (break_event m a t.now)
        (unfold break_event in eq_refl m) (unfold break_event is_break in refl)),
)

-- When every gate lets a call pass, the mission can be paused when it was read and when it is
-- written, the acting policy may pause it, and the spool can be written, the call reports that the
-- envelope is enforced, and leaves the mission paused, with a break.
pub breaker_pauses :
    (t : Attempt) (db : Db) (m : String) (a : Account) (r : MissionRow)
    → get_account_row db.budget m ≡ ok a
    → breaker_gates t db m a ≡ none
    → mission_pausable (mission_row db.missions m) ≡ true
    → MayPause t.acting t.world (t.between db).missions (pause_request m) r
    → t.spool_works ≡ true
    → ((enforce_budget_breaker t db m).0 ≡ reported enforced false)
      × ((r' : MissionRow) × (mission_row (enforce_budget_breaker t db m).1.missions m ≡ some r')
          × (r'.status ≡ Status.paused))
      × (has_break (enforce_budget_breaker t db m).1.budget m ≡ true)
breaker_pauses t db m a r account gates pausable may works =
    let ((reply, replied), (r', row, paused)) =
      transition_pauses t.acting t.world (t.between db).missions (pause_request m) r t.now may in
    let after : Db = record (t.between db) { missions = paused_missions t db m } in
    let e : enforce_budget_breaker t db m ≡ signal t m a true after =
      unfold enforce_budget_breaker breaker_over breaker_finish breaker_act in
      rw (account, gates, pausable)
        (ap (λ x. signal t m a x.0 (record (t.between db) { missions = x.1 }))
          (pause_made t db m reply replied)) in
    (
      rw e (signalled t m a after works).0,
      (r', rw e (rw (signalled t m a after works).1 row), paused),
      rw e (signalled t m a after works).2,
    )
