-- ===== src/Mission/Lifecycle/Reconcile/Sound.antt =====
-- hermes_mission_reconcile decides only what is permitted.
use hermes_gpt.Prelude.{
  ◌≡◌, refl, sym, arith, inl, inr, Bool-cases, String, true, false, some, List, not,
}
use hermes_gpt.Prelude.Result.{ok, bind_ok, value_error, require}
use hermes_gpt.Policy.{
  OperatorPolicy, workspace, require_level, require_mutation, effective_dry_run,
}
use hermes_gpt.Mission.Defs.{
  Status, same_status, same_status_sound, is_terminal_status, MissionRow, Attachment, MissionDb,
  attached, mission_row,
}
use hermes_gpt.Mission.Stores.{Stores}
use hermes_gpt.Mission.Observe.Justified.{
  Justified, desired_terminal, desired_completed, Justified-approvable,
}
use hermes_gpt.Mission.Observe.{Observed, observe_attachments, desired_mission_status}
use hermes_gpt.Mission.Guards.{World, get_row, completion_guard, same_authority}
use hermes_gpt.Mission.Lifecycle.Evolves.{Follows, Follows-trans}
use hermes_gpt.Mission.Lifecycle.Evolves.Decided.{
  Permission, get_row_sound, conclude-Follows, same_row,
}
use hermes_gpt.Mission.Lifecycle.{Request, Decision, confirmed, observed_in}
use hermes_gpt.Mission.Lifecycle.Reconcile.{
  awaited, reconciled, completes, reconcile_completed, reconcile_other, reconcile_seen,
  reconcile_decide, reconcile,
}

-- A terminal status is kept, and completed is awaited only where it is desired.
awaited_terminal :
    (s : Stores) (m : MissionRow) (items : List Observed)
    → is_terminal_status m.status ≡ true
    → awaited s m items ≡ m.status
unfolding awaited
awaited_terminal s m items h = rw (desired_terminal m items h) (ground arith)

awaited_completed :
    (s : Stores) (m : MissionRow) (items : List Observed)
    → same_status (desired_mission_status m items) Status.completed ≡ false
    → ¬ (awaited s m items ≡ Status.completed)
unfolding awaited is_terminal_status
awaited_completed s m items other h = elim (Bool-cases (is_terminal_status m.status)) [
  | inl terminal ↦ ground (arith, desired_terminal m items terminal)
  | inr active ↦ ground (arith, active)
]

module _ (p : OperatorPolicy) (w : World) (db : MissionDb) (m : String) (seen : MissionRow) where
  completed_permitted :
      (items : List Observed) (d : Decision)
      → items ≡ observed_in w.stores db m
      → Follows db (w.others db)
      → mission_row db m ≡ some seen
      → completes seen items ≡ true
      → reconcile_completed w (w.others db) m seen items ≡ ok d
      → Permission p w db m d
  unfolding reconcile_completed reconciled desired_mission_status
  completed_permitted items d look follows found complete h =
      let justified : Justified seen items =
        desired_completed seen items (ground arith) (same_status_sound _ _ (ground arith)) in
      let (g, guard, h') = bind_ok (completion_guard w.delegations m items) _ h in
      let (cur, auth, done) = bind_ok (same_authority (w.others db) m seen) _ h' in
      let (row, same) = same_row db (w.others db) m seen follows found auth in
      (
        seen,
        row,
        record {
          final = λ terminal. absurd (ground arith);
          lawful = λ _ required. ground (arith, justified.approval required);
          grounds = λ _ _. record {
            items = items;
            seen = inl look;
            ended = rw look (
                Justified-approvable seen w.stores m (attached m db.attachments)
                  (rw (sym look) justified));
            guarded = guard;
          };
          owner = λ approves. absurd (ground arith);
        },
      )

  other_permitted :
      (rows : List Attachment) (items : List Observed) (d : Decision)
      → Follows db (w.others db)
      → mission_row db m ≡ some seen
      → reconcile_other w (w.others db) m seen rows items ≡ ok d
      → Permission p w db m d
  unfolding reconcile_other reconciled
  other_permitted rows items d follows found h =
      let (cur, auth, h') = bind_ok (same_authority (w.others db) m seen) _ h in
      let (g, guard, done) =
        bind_ok
          (require (not (same_status (desired_mission_status seen items) Status.completed))
            value_error)
          _ h' in
      let (row, same) = same_row db (w.others db) m seen follows found auth in
      (
        seen,
        row,
        record {
          final = λ terminal. ground (arith, awaited_terminal w.stores_late seen items terminal);
          lawful = λ to _.
              absurd (awaited_completed w.stores_late seen items (ground arith) (ground arith));
          grounds = λ _ to.
              absurd (awaited_completed w.stores_late seen items (ground arith) (ground arith));
          owner = λ approves. absurd (ground arith);
        },
      )

module _ (p : OperatorPolicy) (w : World) (db : MissionDb) (q : Request) where
  -- A direct reconciliation that decides has read the row that it writes.
  pub reconcile_permitted :
      (d : Decision)
      → Follows db (w.others db)
      → reconcile_decide p w db q ≡ ok d
      → effective_dry_run p q.dry_run ≡ false
      → Permission p w db q.mission_id d
  unfolding reconcile_decide reconcile_seen
  reconcile_permitted d follows h wet =
      let (_, level, h1) = bind_ok (require_level p workspace) _ h in
      let (_, mutation, h2) = bind_ok (require_mutation p q.dry_run) _ h1 in
      let (_, confirm, h3) = bind_ok (confirmed p q) _ h2 in
      let (seen, row, decided) = bind_ok (get_row db q.mission_id) _ h3 in
      let found : mission_row db q.mission_id ≡ some seen = get_row_sound db q.mission_id row in
      let rows : List Attachment = attached q.mission_id db.attachments in
      let items : List Observed = observe_attachments w.stores q.mission_id rows in
      elim (Bool-cases (completes seen items)) [
        | inl finished ↦
            completed_permitted p w db q.mission_id seen items d refl follows found finished
              (ground (arith, wet, finished, decided))
        | inr unfinished ↦
            other_permitted p w db q.mission_id seen rows items d follows found
              (ground (arith, wet, unfinished, decided))
      ]

  -- A reconciliation, among writers that follow the protocol, follows it.
  pub reconcile-Follows :
      (now : String) → Follows db (w.others db) → Follows db (reconcile p w db q now).1
  unfolding reconcile
  reconcile-Follows now follows =
      Follows-trans db (w.others db) (reconcile p w db q now).1 follows (
        conclude-Follows p w db q now (reconcile_decide p w db q)
          (λ d h wet. reconcile_permitted d follows h wet))
