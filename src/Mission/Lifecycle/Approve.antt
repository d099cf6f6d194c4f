-- ===== src/Mission/Lifecycle/Approve.antt =====
-- operator_mission_runtime.py: hermes_mission_approve.
use hermes_gpt.Prelude.{
  ◌≡◌, refl, arith, inl, String, true, false, some, List, [], ◌&&◌, leb, if◌then◌else◌,
}
use hermes_gpt.Prelude.Result.{Result, ok, bind_ok, value_error, ◌>>=◌, ◌>>◌, require}
use hermes_gpt.Policy.{OperatorPolicy, require_owner, effective_dry_run}
use hermes_gpt.Mission.Defs.{
  Status, same_status, same_status_sound, is_terminal_status, MissionRow, MissionDb, mission_row,
}
use hermes_gpt.Mission.Observe.{Observed, approvable}
use hermes_gpt.Mission.Guards.{World, get_row, completion_guard, same_authority}
use hermes_gpt.Mission.Lifecycle.Evolves.{Follows, Follows-trans}
use hermes_gpt.Mission.Lifecycle.Evolves.Decided.{
  Permission, get_row_sound, same_row, conclude-Follows,
}
use hermes_gpt.Mission.Lifecycle.{Request, Reply, Decision, conclude, confirmed, observed_in}

approval_of : MissionRow → Decision
approval_of m = record {
  from_status = m.status;
  to_status = Status.completed;
  event_type = "mission.approved";
  recorded = [];
  approve = true;
  changed = true;
}

approve_direct : World → MissionDb → String → MissionRow → List Observed → Result Decision
unfolding approval_of
approve_direct w db m seen items = do
  completion_guard w.delegations m items
  current ← same_authority (w.others db) m seen
  ok (approval_of current)

approve_seen :
    OperatorPolicy → World → MissionDb → Request → MissionRow → List Observed → Result Decision
unfolding approve_direct approval_of
approve_seen p w db q seen items =
    if effective_dry_run p q.dry_run
    then ok (approval_of seen)
    else approve_direct w db q.mission_id seen items

unfoldable pub approve_decide : OperatorPolicy → World → MissionDb → Request → Result Decision
unfolding confirmed approve_seen
approve_decide p w db q = do
  require_owner p q.dry_run
  require (leb 1 q.text_length && leb q.text_length 256) value_error
  confirmed p q
  seen ← get_row db q.mission_id
  require (same_status seen.status Status.awaiting_approval) value_error
  require (approvable (observed_in w.stores db q.mission_id)) value_error
  approve_seen p w db q seen (observed_in w.stores db q.mission_id)

-- hermes_mission_approve
unfoldable pub approve :
    OperatorPolicy → World → MissionDb → Request → String → Result Reply × MissionDb
approve p w db q now = conclude p (w.others db) q now (approve_decide p w db q)

module _ (p : OperatorPolicy) (w : World) (db : MissionDb) (q : Request) where
  direct_permitted :
      (seen : MissionRow) (d : Decision)
      → Follows db (w.others db)
      → mission_row db q.mission_id ≡ some seen
      → require_owner p q.dry_run ≡ ok tt
      → seen.status ≡ Status.awaiting_approval
      → approvable (observed_in w.stores db q.mission_id) ≡ true
      → approve_direct w db q.mission_id seen (observed_in w.stores db q.mission_id) ≡ ok d
      → Permission p w db q.mission_id d
  unfolding approve_direct approval_of require_owner is_terminal_status
  direct_permitted seen d follows found owner waits ended h =
      let (_, guard, h1) =
        bind_ok (completion_guard w.delegations q.mission_id (observed_in w.stores db q.mission_id))
          _ h in
      let (cur, auth, done) = bind_ok (same_authority (w.others db) q.mission_id seen) _ h1 in
      let (row, same) = same_row db (w.others db) q.mission_id seen follows found auth in
      (
        seen,
        row,
        record {
          final = λ terminal. absurd (ground arith);
          lawful = λ to required. ground arith;
          grounds = λ _ _. record {
            items = observed_in w.stores db q.mission_id;
            seen = inl refl;
            ended = ended;
            guarded = guard;
          };
          owner = λ _. ground (arith, owner);
        },
      )

  pub approve_permitted :
      (d : Decision)
      → Follows db (w.others db)
      → approve_decide p w db q ≡ ok d
      → effective_dry_run p q.dry_run ≡ false
      → Permission p w db q.mission_id d
  unfolding approve_decide approve_seen
  approve_permitted d follows h wet =
      let (_, owner, h1) = bind_ok (require_owner p q.dry_run) _ h in
      let (_, text, h2) =
        bind_ok (require (leb 1 q.text_length && leb q.text_length 256) value_error) _ h1 in
      let (_, confirm, h3) = bind_ok (confirmed p q) _ h2 in
      let (seen, got, h4) = bind_ok (get_row db q.mission_id) _ h3 in
      let (_, waits, h5) =
        bind_ok (require (same_status seen.status Status.awaiting_approval) value_error) _ h4 in
      let (_, ended, h6) =
        bind_ok (require (approvable (observed_in w.stores db q.mission_id)) value_error) _ h5 in
      direct_permitted seen d follows (get_row_sound db q.mission_id got) owner
        (same_status_sound seen.status Status.awaiting_approval (ground (arith, waits)))
        (ground (arith, ended)) (ground (arith, wet, h6))

  -- An approval, among writers that follow the protocol, follows it.
  pub approve-Follows :
      (now : String) → Follows db (w.others db) → Follows db (approve p w db q now).1
  unfolding approve
  approve-Follows now follows = Follows-trans db (w.others db) (approve p w db q now).1 follows (
      conclude-Follows p w db q now (approve_decide p w db q)
        (λ d h wet. approve_permitted d follows h wet))
