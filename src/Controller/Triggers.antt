-- ===== src/Controller/Triggers.antt =====
-- operator_controller.py: the table controller_trigger_queue, trigger and consume_trigger.
use mathlib.Core.Option
use mathlib.Core.Path.{subst}
use hermes_gpt.Prelude.{
  ℕ, suc, String, Bool, Option, none, some, List, [], ◌∷◌, ◌++◌, ◌==◌, ◌||◌, eqb, ◌≡◌, ◌≢◌, refl,
  sym, ap, ◌∙◌, inl, inr, arith, eq_iff, eq_refl, Option-cases, if◌then◌else◌,
}
use hermes_gpt.Prelude.Result.{Result, ok, err, value_error, ◌>>=◌, ◌>>◌, require}
use hermes_gpt.Prelude.Rows.{select, update, delete, count, select_sound, select-update}
use hermes_gpt.Plan.Ids.{is_mission_id}
use hermes_gpt.Mission.Defs.{MissionDb}
use hermes_gpt.Mission.Guards.{get_row}
use hermes_gpt.Controller.Lease.{LeaseRow, mark_recheck}

-- A row of controller_trigger_queue, without its time.
pub record TriggerRow : Type 0 where
  pub mission_id : String
  pub trigger_kind : String
  pub ref : String
  pub seq : ℕ

pub record Queue : Type 0 where
  pub triggers : List TriggerRow
  pub leases : List LeaseRow

abbrev pub trigger_key : String → TriggerRow → Bool
trigger_key m r = r.mission_id == m

-- TRIGGERS
unfoldable pub is_trigger : String → Bool
is_trigger k =
    k == "T1_periodic"
    || (k == "T2_live_event" || (k == "T3_dependency" || (k == "T4_health" || k == "T5_manual")))

seq_in : Option TriggerRow → ℕ
seq_in none = 0
seq_in (some r) = r.seq

-- `int(row["seq"]) if row else 0`
unfoldable pub seq_of : List TriggerRow → String → ℕ
unfolding seq_in
seq_of rows m = seq_in (select (trigger_key m) rows)

queued : String → String → String → ℕ → TriggerRow → TriggerRow
queued m kind ref seq r = record r { trigger_kind = kind; ref = ref; seq = seq }

new_trigger : String → String → String → ℕ → TriggerRow
new_trigger m kind ref seq = record { mission_id = m; trigger_kind = kind; ref = ref; seq = seq }

-- INSERT ... ON CONFLICT DO UPDATE
enqueue : String → String → String → ℕ → List TriggerRow → Option TriggerRow → List TriggerRow
unfolding queued new_trigger
enqueue m kind ref seq rows (some _) = update (trigger_key m) (queued m kind ref seq) rows
enqueue m kind ref seq rows none = rows ++ new_trigger m kind ref seq ∷ []

trigger_write : String → String → String → ℕ → Queue → Queue
unfolding enqueue
trigger_write m kind ref now db = record {
  triggers =
      enqueue m kind ref (suc (seq_of db.triggers m)) db.triggers
        (select (trigger_key m) db.triggers);
  leases = (mark_recheck m now db.leases).1;
}

trigger_checks : MissionDb → String → String → Result (Unit {0})
trigger_checks missions m kind = do
  require (is_mission_id m) value_error
  require (is_trigger kind) value_error
  row ← get_row missions m
  ok tt

trigger_finish : String → String → String → ℕ → Queue → Result (Unit {0}) → Result ℕ × Queue
unfolding trigger_write
trigger_finish m kind ref now db (err e) = (err e, db)
trigger_finish m kind ref now db (ok _) =
    (ok (suc (seq_of db.triggers m)), trigger_write m kind ref now db)

-- trigger; `ref` as _sanitize leaves it
unfoldable pub trigger : MissionDb → String → String → String → ℕ → Queue → Result ℕ × Queue
unfolding trigger_checks trigger_finish
trigger missions m kind ref now db =
    trigger_finish m kind ref now db (trigger_checks missions m kind)

-- consume_trigger
unfoldable pub consume_trigger : String → List TriggerRow → Bool × List TriggerRow
consume_trigger m rows = (eqb (count (trigger_key m) rows) 1, delete (trigger_key m) rows)

select_appended :
    (m : String) (rows : List TriggerRow) (b : TriggerRow)
    → select (trigger_key m) (rows ++ b ∷ [])
      ≡ elim (select (trigger_key m) rows) as (λ _. Option TriggerRow) [
        | none ↦ if trigger_key m b then some b else none
        | some r ↦ some r
      ]
unfolding select
select_appended m [] b = refl
select_appended m (x ∷ rows) b = ground (arith, select_appended m rows b)

enqueue_row :
    (m kind ref : String) (seq : ℕ) (rows : List TriggerRow) (old : Option TriggerRow)
    → select (trigger_key m) rows ≡ old
    → select (trigger_key m) (enqueue m kind ref seq rows old) ≡ some (new_trigger m kind ref seq)
unfolding enqueue queued new_trigger
enqueue_row m kind ref seq rows none h =
    ground (arith, select_appended m rows (new_trigger m kind ref seq), h, eq_refl m)
enqueue_row m kind ref seq rows (some r) h =
    let moved =
      select-update (trigger_key m) (trigger_key m) (queued m kind ref seq) (λ x. refl) rows
      ∙ ap (Option.map _) h in
    ground (arith, moved, select_sound (trigger_key m) rows r h, eq_iff r.mission_id m)

enqueue_other :
    (m kind ref n : String) (seq : ℕ) (rows : List TriggerRow) (old : Option TriggerRow)
    → n ≢ m
    → select (trigger_key n) (enqueue m kind ref seq rows old) ≡ select (trigger_key n) rows
unfolding enqueue queued new_trigger
enqueue_other m kind ref n seq rows none other =
    let added = select_appended n rows (new_trigger m kind ref seq) in
    elim (Option-cases (select (trigger_key n) rows)) [
      | inl absent ↦ ground (arith, added, absent, other, eq_iff m n)
      | inr (r, found) ↦ ground (arith, added, found)
    ]
enqueue_other m kind ref n seq rows (some r) other =
    let moved =
      select-update (trigger_key n) (trigger_key m) (queued m kind ref seq) (λ x. refl) rows in
    elim (Option-cases (select (trigger_key n) rows)) [
      | inl absent ↦ ground (arith, moved, absent)
      | inr (x, found) ↦ ground (
        arith,
        moved,
        found,
        other,
        select_sound (trigger_key n) rows x found,
        eq_iff x.mission_id n,
        eq_iff x.mission_id m,
      )
    ]

-- What a trigger that is accepted leaves.
finish_enqueues :
    (m kind ref : String) (now : ℕ) (db : Queue) (c : Result (Unit {0})) (seq : ℕ)
    → (trigger_finish m kind ref now db c).0 ≡ ok seq
    → (seq ≡ suc (seq_of db.triggers m))
      × (select (trigger_key m) (trigger_finish m kind ref now db c).1.triggers
          ≡ some (record { mission_id = m; trigger_kind = kind; ref = ref; seq = seq }))
      × ((n : String)
          → n ≢ m
          → select (trigger_key n) (trigger_finish m kind ref now db c).1.triggers
            ≡ select (trigger_key n) db.triggers)
unfolding trigger_finish trigger_write new_trigger
finish_enqueues m kind ref now db (err e) seq h = absurd cc
finish_enqueues m kind ref now db (ok _) seq h =
    let e : suc (seq_of db.triggers m) ≡ seq = ground arith in
    (
      sym e,
      subst
          (λ s.
            select (trigger_key m) (trigger_write m kind ref now db).triggers
            ≡ some (new_trigger m kind ref s))
          e
          (enqueue_row m kind ref (suc (seq_of db.triggers m)) db.triggers
            (select (trigger_key m) db.triggers) refl),
      λ n other.
          enqueue_other m kind ref n (suc (seq_of db.triggers m)) db.triggers
            (select (trigger_key m) db.triggers) other,
    )

-- An accepted trigger takes the next number of its mission, replaces the mission's request by its
-- own, and leaves the requests of every other mission.
pub trigger_enqueues :
    (missions : MissionDb) (m kind ref : String) (now : ℕ) (db : Queue) (seq : ℕ)
    → (trigger missions m kind ref now db).0 ≡ ok seq
    → (seq ≡ suc (seq_of db.triggers m))
      × (select (trigger_key m) (trigger missions m kind ref now db).1.triggers
          ≡ some (record { mission_id = m; trigger_kind = kind; ref = ref; seq = seq }))
      × ((n : String)
          → n ≢ m
          → select (trigger_key n) (trigger missions m kind ref now db).1.triggers
            ≡ select (trigger_key n) db.triggers)
unfolding trigger
trigger_enqueues missions m kind ref now db =
    finish_enqueues m kind ref now db (trigger_checks missions m kind)
