-- ===== src/Mission/Lifecycle/Evolves/Decided.antt =====
-- What a permitted decision does to the rows of the missions.
use mathlib.Core.Option
use mathlib.Core.Path.{subst}
use hermes_gpt.Prelude.{
  String, true, false, some, List, ◌||◌, ◌⊎◌, ◌≡◌, refl, sym, ap, ◌∙◌, inl, inr, arith, Bool-cases,
  eq_iff, if◌then◌else◌,
}
use hermes_gpt.Prelude.Result.{Result, ok, err}
use hermes_gpt.Prelude.Rows.{update, select_sound, select-update}
use hermes_gpt.Policy.{OperatorPolicy, effective_dry_run}
use hermes_gpt.Mission.Defs.{
  Status, is_terminal_status, MissionRow, MissionDb, mission_row, mission_key, event,
}
use hermes_gpt.Mission.Guards.{World, completion_guard, get_row, same_authority}
use hermes_gpt.Mission.Observe.{Observed, approvable}
use hermes_gpt.Mission.Lifecycle.{Request, Decision, observed_in, decided, commit, conclude}
use hermes_gpt.Mission.Lifecycle.Evolves.{
  Evolves, Follows, some_injective, Evolves-refl, Follows-refl,
}

-- The ground of a completion: an observation of the call in which every child of the mission as it
-- was read has ended, verified where it succeeded, with one success, and which the guard of the
-- delegations confirmed.
pub record Grounded (w : World) (db : MissionDb) (m : String) : Type 0 where
  pub items : List Observed
  pub seen : (items ≡ observed_in w.stores db m) ⊎ (items ≡ observed_in w.stores_again db m)
  pub ended : approvable items ≡ true
  pub guarded : completion_guard w.delegations m items ≡ ok tt

-- What a decision of a direct call needs to be written over a row.
pub record Permitted (p : OperatorPolicy) (w : World) (db : MissionDb) (m : String) (r : MissionRow)
    (d : Decision) : Type 0 where
  pub final : is_terminal_status r.status ≡ true → d.to_status ≡ r.status
  pub lawful :
      d.to_status ≡ Status.completed
      → r.final_approval_required ≡ true
      → (d.approve || r.approved) ≡ true
  pub grounds :
      is_terminal_status r.status ≡ false → d.to_status ≡ Status.completed → Grounded w db m
  pub owner : d.approve ≡ true → p.owner_mode_ready ≡ true

-- The row that a direct call writes, and that its decision is permitted.
abbrev pub Permission : OperatorPolicy → World → MissionDb → String → Decision → Type 0
Permission p w db m d =
    (r : MissionRow) × (mission_row (w.others db) m ≡ some r) × Permitted p w db m r d

Permitted-Evolves :
    (p : OperatorPolicy) (w : World) (db : MissionDb) (m : String) (r : MissionRow) (d : Decision)
    (now : String)
    → Permitted p w db m r d
    → Evolves r (decided d now r)
unfolding decided
Permitted-Evolves p w db m r d now permitted = record {
  version_le = omega arith;
  unchanged = λ h. absurd (omega arith);
  final = permitted.final;
  required = refl;
  lawful = λ _. permitted.lawful;
}

missions_committed :
    (db : MissionDb) (m now : String) (d : Decision)
    → d.changed ≡ true
    → (commit m now d db).missions ≡ update (mission_key m) (decided d now) db.missions
unfolding commit event
missions_committed db m now d changed = rw changed refl

nothing_committed :
    (db : MissionDb) (m now : String) (d : Decision) → d.changed ≡ false → commit m now d db ≡ db
unfolding commit
nothing_committed db m now d same = rw same refl

-- A row after the transaction.
committed_row :
    (db : MissionDb) (m now : String) (d : Decision) (n : String) (r : MissionRow)
    → mission_row db n ≡ some r
    → (mission_row (commit m now d db) n ≡ some r)
      ⊎ ((n ≡ m) × (mission_row (commit m now d db) n ≡ some (decided d now r)))
unfolding decided
committed_row db m now d n r h = elim (Bool-cases d.changed) [
  | inr same ↦ inl (rw (nothing_committed db m now d same) h)
  | inl changed ↦
      (let named : n ≡ r.mission_id =
          ground (arith, select_sound (mission_key n) db.missions r h, eq_iff r.mission_id n) in
        let moved : mission_row (commit m now d db) n
            ≡ some (if mission_key m r then decided d now r else r) =
          rw (missions_committed db m now d changed) (
            select-update (mission_key n) (mission_key m) (decided d now) (λ x. refl) db.missions
            ∙ ap (Option.map _) h) in
        elim (Bool-cases (mission_key m r)) [
          | inl hit ↦ inr (ground (arith, named, eq_iff r.mission_id m), ground (arith, moved))
          | inr miss ↦ inl (ground (arith, moved))
        ])
]

-- The row that a changing decision is about.
pub committed_self :
    (db : MissionDb) (m now : String) (d : Decision) (r : MissionRow)
    → d.changed ≡ true
    → mission_row db m ≡ some r
    → mission_row (commit m now d db) m ≡ some (decided d now r)
unfolding decided
committed_self db m now d r changed h =
    let moved : mission_row (commit m now d db) m
        ≡ some (if mission_key m r then decided d now r else r) =
      rw (missions_committed db m now d changed) (
        select-update (mission_key m) (mission_key m) (decided d now) (λ x. refl) db.missions
        ∙ ap (Option.map _) h) in
    ground (arith, moved, select_sound (mission_key m) db.missions r h)

pub commit-Follows :
    (db : MissionDb) (m now : String) (d : Decision) (r : MissionRow)
    → mission_row db m ≡ some r
    → Evolves r (decided d now r)
    → Follows db (commit m now d db)
commit-Follows db m now d r h evolves n s hs = elim (committed_row db m now d n s hs) [
  | inl same ↦ (s, same, Evolves-refl s)
  | inr (named, moved) ↦
      (let same : r ≡ s =
          some_injective (sym h ∙ subst (λ x. mission_row db x ≡ some s) named hs) in
        (decided d now s, moved, subst (λ y. Evolves y (decided d now y)) same evolves))
]

pub get_row_sound :
    (db : MissionDb) (m : String) {r : MissionRow} → get_row db m ≡ ok r → mission_row db m ≡ some r
unfolding get_row
get_row_sound db m h = ground arith

pub same_authority_sound :
    (db : MissionDb) (m : String) (seen : MissionRow) {r : MissionRow}
    → same_authority db m seen ≡ ok r
    → (mission_row db m ≡ some r) × (r.version ≡ seen.version)
unfolding same_authority
same_authority_sound db m seen h = (ground arith, ground arith)

-- The row of the commit is the row that was observed.
pub same_row :
    (db db' : MissionDb) (m : String) (seen : MissionRow) {r : MissionRow}
    → Follows db db'
    → mission_row db m ≡ some seen
    → same_authority db' m seen ≡ ok r
    → (mission_row db' m ≡ some seen) × (r ≡ seen)
same_row db db' m seen follows h auth =
    let (found, version) = same_authority_sound db' m seen auth in
    let (s, hs, e) = follows m seen h in
    let same : s ≡ seen = e.unchanged (ground (arith, found, version)) in
    (ground (arith, same), ground (arith, same, found))

-- A row that is not terminal is not the completed row.
pub same_not_completed :
    (db : MissionDb) (m : String) (r r' : MissionRow)
    → mission_row db m ≡ some r
    → is_terminal_status r.status ≡ false
    → mission_row db m ≡ some r'
    → ¬ (r'.status ≡ Status.completed)
unfolding is_terminal_status
same_not_completed db m r r' h active h' done =
    let same : r ≡ r' = some_injective (sym h ∙ h') in
    ground (arith, same, subst (λ x. is_terminal_status x.status ≡ false) same active)

-- A handler that decides only what is permitted.
module _ (p : OperatorPolicy) (w : World) (db : MissionDb) (q : Request) (now : String) where
  abbrev ToPermit : Result Decision → Type 0
  ToPermit c =
      (d : Decision)
      → c ≡ ok d
      → effective_dry_run p q.dry_run ≡ false
      → Permission p w db q.mission_id d

  pub conclude-Follows :
      (c : Result Decision)
      → ToPermit c
      → Follows (w.others db) (conclude p (w.others db) q now c).1
  unfolding conclude
  conclude-Follows (err e) permitted = Follows-refl (w.others db)
  conclude-Follows (ok d) permitted = elim (Bool-cases (effective_dry_run p q.dry_run)) [
    | inl dry ↦ rw dry (Follows-refl (w.others db))
    | inr wet ↦ rw wet (
        let (r, h, l) = permitted d refl wet in
        commit-Follows (w.others db) q.mission_id now d r h
          (Permitted-Evolves p w db q.mission_id r d now l))
  ]

  committed-Grounded :
      (d : Decision) (m : String) (r r' : MissionRow)
      → Permission p w db q.mission_id d
      → mission_row (w.others db) m ≡ some r
      → is_terminal_status r.status ≡ false
      → mission_row (commit q.mission_id now d (w.others db)) m ≡ some r'
      → r'.status ≡ Status.completed
      → (m ≡ q.mission_id)
        × Grounded w db m
        × (r.final_approval_required ≡ true → (r.approved ≡ true) ⊎ (p.owner_mode_ready ≡ true))
  unfolding decided
  committed-Grounded d m r r' (s, found, permitted) h active h' done =
      elim (committed_row (w.others db) q.mission_id now d m r h) [
        | inl same ↦ absurd (
            same_not_completed (commit q.mission_id now d (w.others db)) m r r' same active h' done)
        | inr (named, moved) ↦
            (let to : d.to_status ≡ Status.completed =
                ap (λ x. x.status) (some_injective (sym moved ∙ h')) ∙ done in
              let row : s ≡ r =
                some_injective
                  (sym found ∙ subst (λ x. mission_row (w.others db) x ≡ some r) named h) in
              (
                named,
                subst (Grounded w db) (sym named) (permitted.grounds (rw row active) to),
                λ required. elim (Bool-cases d.approve) [
                  | inl approves ↦ inr (permitted.owner approves)
                  | inr not_now ↦
                      inl (ground (arith, row, not_now, permitted.lawful to (rw row required)))
                ],
              ))
      ]

  -- It completes a mission only on a ground, and one that waits for an approval only as the Owner.
  pub conclude-Grounded :
      (c : Result Decision) (m : String) (r r' : MissionRow)
      → ToPermit c
      → mission_row (w.others db) m ≡ some r
      → is_terminal_status r.status ≡ false
      → mission_row (conclude p (w.others db) q now c).1 m ≡ some r'
      → r'.status ≡ Status.completed
      → (m ≡ q.mission_id)
        × Grounded w db m
        × (r.final_approval_required ≡ true → (r.approved ≡ true) ⊎ (p.owner_mode_ready ≡ true))
  unfolding conclude
  conclude-Grounded (err e) m r r' permitted h active h' done =
      absurd (same_not_completed (w.others db) m r r' h active h' done)
  conclude-Grounded (ok d) m r r' permitted h active h' done =
      elim (Bool-cases (effective_dry_run p q.dry_run)) [
        | inl dry ↦
            absurd (same_not_completed (w.others db) m r r' h active (ground (arith, dry, h')) done)
        | inr wet ↦
            committed-Grounded d m r r' (permitted d refl wet) h active (ground (arith, wet, h'))
              done
      ]
