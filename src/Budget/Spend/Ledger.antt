-- ===== src/Budget/Spend/Ledger.antt =====
-- The spend of an account is the sum of the amounts of its events, and never exceeds the maximum.
use mathlib.Core.Option
use hermes_gpt.Prelude.{
  ℕ, ◌+◌, ◌≤◌, String, Bool, Option, none, some, List, [], ◌∷◌, ◌++◌, ◌≡◌, refl, sym, ap, ◌∙◌, inl,
  inr, arith, ◌==◌, ◌||◌, leb, eq_iff, Bool-cases, if◌then◌else◌,
}
use hermes_gpt.Prelude.Result.{Result, ok, err, bind_ok, require, value_error, permission_error}
use hermes_gpt.Prelude.Rows.{select, select_sound, select-update}
use hermes_gpt.Policy.{
  OperatorPolicy, workspace, require_level, require_mutation, effective_dry_run,
}
use hermes_gpt.Plan.Ids.{is_mission_id}
use hermes_gpt.Mission.Defs.{MissionDb}
use hermes_gpt.Mission.Attach.{is_ref}
use hermes_gpt.Budget.Defs.{
  max_spend, max_amount, Account, BudgetEvent, BudgetDb, account_key, get_account_row,
  get_account_row_sound, clean_num,
}
use hermes_gpt.Budget.Spend.{
  SetRequest, set_account, new_account, set_over, set_write, set_decide, set_finish, budget_set,
  RecordRequest, record_decide, spent, spend_event, record_write, record_finish, budget_record,
}

abbrev pub amount_for : String → BudgetEvent → ℕ
amount_for m e = if e.mission_id == m then e.amount else 0

-- The amounts recorded for a mission.
abbrev pub total : String → List BudgetEvent → ℕ
total m [] = 0
total m (e ∷ events) = amount_for m e + total m events

spend_in : Option Account → ℕ
spend_in none = 0
spend_in (some a) = a.spend

-- The spend of a mission's account, 0 where it has none.
unfoldable pub spend_of : BudgetDb → String → ℕ
unfolding spend_in
spend_of db m = spend_in (select (account_key m) db.budget_accounts)

-- The ledger of a mission: what is spent is what was recorded, and is in bounds.
pub record Balanced (db : BudgetDb) (m : String) : Type 0 where
  pub sum : spend_of db m ≡ total m db.budget_events
  pub bounded : spend_of db m ≤ max_spend

total_append :
    (m : String) (events : List BudgetEvent) (e : BudgetEvent)
    → total m (events ++ e ∷ []) ≡ total m events + amount_for m e
total_append m [] e = omega arith
total_append m (x ∷ events) e = omega (arith, total_append m events e)

spend_appended :
    (p : Account → Bool) (rows : List Account) (b : Account)
    → b.spend ≡ 0
    → spend_in (select p (rows ++ b ∷ [])) ≡ spend_in (select p rows)
unfolding select spend_in
spend_appended p [] b zero_spend = elim (Bool-cases (p b)) [
  | inl hit ↦ rw hit zero_spend
  | inr miss ↦ rw miss refl
]
spend_appended p (r ∷ rows) b zero_spend = elim (Bool-cases (p r)) [
  | inl hit ↦ rw hit refl
  | inr miss ↦ rw miss (spend_appended p rows b zero_spend)
]

set_row_spend :
    (q : SetRequest) (now : String) (found : Option Account)
    → spend_in
        (Option.map (λ a. if account_key q.mission_id a then set_account q now a else a) found)
      ≡ spend_in found
unfolding spend_in set_account
set_row_spend q now none = refl
set_row_spend q now (some a) = ground arith

-- hermes_budget_set keeps what is spent.
set_over_spend :
    (q : SetRequest) (now : String) (rows : List Account) (old : Option Account) (m : String)
    → spend_in (select (account_key m) (set_over q now rows old))
      ≡ spend_in (select (account_key m) rows)
unfolding set_over
set_over_spend q now rows (some _) m =
    ap spend_in (
      select-update (account_key m) (account_key q.mission_id) (set_account q now)
        (λ a. unfold set_account in refl) rows)
    ∙ set_row_spend q now (select (account_key m) rows)
set_over_spend q now rows none m =
    spend_appended (account_key m) rows (new_account q now) (unfold new_account in refl)

-- hermes_budget_record adds the amount.
record_row_spend :
    (q : RecordRequest) (now : String) (spend : ℕ) (m : String) (found : Option Account)
    → ((b : Account) → found ≡ some b → b.mission_id ≡ m)
    → (m ≡ q.mission_id → (b : Account) × (found ≡ some b) × (b.spend + q.amount ≡ spend))
    → spend_in (Option.map (λ b. if account_key q.mission_id b then spent spend now b else b) found)
      ≡ spend_in found + (if q.mission_id == m then q.amount else 0)
unfolding spend_in spent
record_row_spend q now spend m none named here = elim (Bool-cases (q.mission_id == m)) [
  | inl same ↦ absurd (let (b, h, _) = here (ground (arith, same, eq_iff q.mission_id m)) in cc)
  | inr other ↦ ground (arith, other)
]
record_row_spend q now spend m (some a) named here = elim (Bool-cases (q.mission_id == m)) [
  | inl same ↦
      (let e : m ≡ q.mission_id = ground (arith, same, eq_iff q.mission_id m) in
        let (b, h, sum) = here e in
        ground (arith, same, named a refl, eq_iff a.mission_id q.mission_id, h, sum, e))
  | inr other ↦
      ground (arith, other, named a refl, eq_iff a.mission_id q.mission_id, eq_iff q.mission_id m)
]

set_write-Balanced :
    (q : SetRequest) (now : String) (db : BudgetDb) (m : String)
    → Balanced db m
    → Balanced (set_write q now db) m
unfolding set_write spend_of
set_write-Balanced q now db m b =
    let kept =
      set_over_spend q now db.budget_accounts (select (account_key q.mission_id) db.budget_accounts)
        m in
    record { sum = kept ∙ b.sum; bounded = omega (arith, kept, b.bounded) }

set_finish-Balanced :
    (p : OperatorPolicy) (db : BudgetDb) (q : SetRequest) (now : String) (c : Result (Unit {0}))
    (m : String)
    → Balanced db m
    → Balanced (set_finish p db q now c).1 m
unfolding set_finish
set_finish-Balanced p db q now (err e) m b = b
set_finish-Balanced p db q now (ok _) m b = elim (Bool-cases (effective_dry_run p q.dry_run)) [
  | inl dry ↦ rw dry b
  | inr wet ↦ rw wet (set_write-Balanced q now db m b)
]

record_write-Balanced :
    (q : RecordRequest) (now : String) (a : Account) (db : BudgetDb) (m : String)
    → get_account_row db q.mission_id ≡ ok a
    → a.spend + q.amount ≤ max_spend
    → Balanced db m
    → Balanced (record_write q now a db) m
unfolding record_write spend_of spend_event spend_in
record_write-Balanced q now a db m got short b =
    let found = get_account_row_sound db q.mission_id got in
    let spending : spend_in (select (account_key m) (record_write q now a db).budget_accounts)
        ≡ spend_in (select (account_key m) db.budget_accounts)
          + (if q.mission_id == m then q.amount else 0) =
      ap spend_in (
        select-update (account_key m) (account_key q.mission_id) (spent (a.spend + q.amount) now)
          (λ x. unfold spent in refl) db.budget_accounts)
      ∙ record_row_spend q now (a.spend + q.amount) m (select (account_key m) db.budget_accounts)
          (λ x h.
            ground
              (arith, select_sound (account_key m) db.budget_accounts x h, eq_iff x.mission_id m))
          (λ e. (a, rw e found, refl)) in
    record {
      sum = ground (arith, spending, total_append m db.budget_events (spend_event q a now), b.sum);
      bounded = elim (Bool-cases (q.mission_id == m)) [
        | inl same ↦
            (let e : m ≡ q.mission_id = ground (arith, same, eq_iff q.mission_id m) in
              let here : select (account_key m) db.budget_accounts ≡ some a = rw e found in
              let before : spend_in (select (account_key m) db.budget_accounts) ≡ a.spend =
                rw here refl in
              ground (arith, same, spending, before, short))
        | inr other ↦ ground (arith, other, spending, b.bounded)
      ];
    }

ok_injective : {a b : Account} → ok a ≡ ok b → a ≡ b
ok_injective h = cc

record_decide_sound :
    (p : OperatorPolicy) (db : BudgetDb) (q : RecordRequest) {a : Account}
    → record_decide p db q ≡ ok a
    → (get_account_row db q.mission_id ≡ ok a) × (a.spend + q.amount ≤ max_spend)
unfolding record_decide
record_decide_sound p db q h =
    let (_, level, h1) = bind_ok (require_level p workspace) _ h in
    let (_, mutation, h2) = bind_ok (require_mutation p q.dry_run) _ h1 in
    let (_, named, h3) = bind_ok (require (is_mission_id q.mission_id) value_error) _ h2 in
    let (_, amount, h4) = bind_ok (clean_num 0 max_amount q.amount) _ h3 in
    let (_, ref, h5) = bind_ok (require (q.ref == "" || is_ref q.ref) value_error) _ h4 in
    let (_, reason, h6) = bind_ok (require (leb q.reason_length 200) value_error) _ h5 in
    let (_, confirm, h7) =
      bind_ok (require (effective_dry_run p q.dry_run || q.confirm) permission_error) _ h6 in
    let (found, got, h8) = bind_ok (get_account_row db q.mission_id) _ h7 in
    let (_, short, done) =
      bind_ok (require (leb (found.spend + q.amount) max_spend) value_error) _ h8 in
    let same = ok_injective done in (rw (sym same) got, rw (sym same) (ground (arith, short)))

record_finish-Balanced :
    (p : OperatorPolicy) (db : BudgetDb) (q : RecordRequest) (now : String) (c : Result Account)
    (m : String)
    → record_decide p db q ≡ c
    → Balanced db m
    → Balanced (record_finish p db q now c).1 m
unfolding record_finish
record_finish-Balanced p db q now (err e) m h b = b
record_finish-Balanced p db q now (ok a) m h b = elim (Bool-cases (effective_dry_run p q.dry_run)) [
  | inl dry ↦ rw dry b
  | inr wet ↦ rw wet (
      let (got, short) = record_decide_sound p db q h in
      record_write-Balanced q now a db m got short b)
]

-- The calls that write the budget of a mission.
pub data BudgetCall : Type 0 where
  setting : OperatorPolicy → MissionDb → SetRequest → String → BudgetCall
  recording : OperatorPolicy → RecordRequest → String → BudgetCall

abbrev budget_call : BudgetDb → BudgetCall → BudgetDb
budget_call db (setting p missions q now) = (budget_set p missions db q now).1
budget_call db (recording p q now) = (budget_record p db q now).1

abbrev pub budget_calls : BudgetDb → List BudgetCall → BudgetDb
budget_calls db [] = db
budget_calls db (c ∷ cs) = budget_calls (budget_call db c) cs

budget_call-Balanced :
    (db : BudgetDb) (c : BudgetCall) (m : String) → Balanced db m → Balanced (budget_call db c) m
unfolding budget_set budget_record
budget_call-Balanced db (setting p missions q now) m b =
    set_finish-Balanced p db q now (set_decide p missions q) m b
budget_call-Balanced db (recording p q now) m b =
    record_finish-Balanced p db q now (record_decide p db q) m refl b

-- From a balanced ledger, any calls of hermes_budget_set and hermes_budget_record with whole quotas
-- and amounts, for whatever missions, leave a mission's spend at the sum of its recorded amounts, and
-- at most the maximum.
pub budget_calls-Balanced :
    (db : BudgetDb) (cs : List BudgetCall) (m : String)
    → Balanced db m
    → Balanced (budget_calls db cs) m
budget_calls-Balanced db [] m b = b
budget_calls-Balanced db (c ∷ cs) m b =
    budget_calls-Balanced (budget_call db c) cs m (budget_call-Balanced db c m b)
