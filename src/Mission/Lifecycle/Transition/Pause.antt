-- ===== src/Mission/Lifecycle/Transition/Pause.antt =====
-- A direct hermes_mission_transition to paused, where the mission may be paused, pauses it.
use hermes_gpt.Prelude.{◌≤◌, String, true, false, some, List, ◌≡◌, refl, ap, arith, leb}
use hermes_gpt.Prelude.Result.{ok}
use hermes_gpt.Policy.{
  OperatorPolicy, workspace, require_level, require_mutation, effective_dry_run,
}
use hermes_gpt.Plan.Ids.{is_mission_id}
use hermes_gpt.Mission.Defs.{
  Status, same_status, is_terminal_status, mission_transitions, MissionRow, MissionDb, mission_row,
}
use hermes_gpt.Mission.Observe.{Observed}
use hermes_gpt.Mission.Guards.{World, get_row}
use hermes_gpt.Mission.Lifecycle.{
  Request, Reply, Decision, decided, commit, conclude, reply_of, confirmed, observed_in,
}
use hermes_gpt.Mission.Lifecycle.Evolves.Decided.{committed_self}
use hermes_gpt.Mission.Lifecycle.Transition.{
  validate_transition, transitioned, transition_plain, transition_to, transition_decide, transition,
}

-- A status that may be paused.
may_pause :
    (s : Status)
    → mission_transitions s Status.paused ≡ true
    → (is_terminal_status s ≡ false) × (same_status Status.paused s ≡ false)
unfolding mission_transitions is_terminal_status
may_pause Status.draft h = (refl, refl)
may_pause Status.running h = (refl, refl)
may_pause Status.paused h = absurd cc
may_pause Status.blocked h = (refl, refl)
may_pause Status.awaiting_approval h = absurd cc
may_pause Status.completed h = absurd cc
may_pause Status.failed h = absurd cc
may_pause Status.cancelled h = absurd cc

pause_validated :
    (r : MissionRow) (items : List Observed)
    → mission_transitions r.status Status.paused ≡ true
    → validate_transition r items Status.paused ≡ ok true
unfolding validate_transition
pause_validated r items h = let (active, other) = may_pause r.status h in rw (active, other, h) refl

module _ (p : OperatorPolicy) (w : World) (db : MissionDb) (q : Request) (r : MissionRow) where
  -- What the pause needs of the call and of the mission when it is written.
  pub record MayPause : Type 0 where
    pub level : require_level p workspace ≡ ok tt
    pub mutation : require_mutation p q.dry_run ≡ ok tt
    pub direct : effective_dry_run p q.dry_run ≡ false
    pub confirm : q.confirm ≡ true
    pub short : q.text_length ≤ 1000
    pub named : is_mission_id q.mission_id ≡ true
    pub found : mission_row (w.others db) q.mission_id ≡ some r
    pub pausable : mission_transitions r.status Status.paused ≡ true

  pause_decision :
      MayPause
      → transition_decide p w db q (some Status.paused) ≡ ok (transitioned r Status.paused true)
  unfolding transition_decide transition_to transition_plain confirmed get_row
  pause_decision may =
      let short : leb q.text_length 1000 ≡ true = ground (arith, may.short) in
      rw (may.level, may.mutation, short, may.direct, may.confirm, may.named, may.found)
        (rw (pause_validated r (observed_in w.stores (w.others db) q.mission_id) may.pausable) refl)

  -- The transition succeeds and leaves the mission paused.
  pub transition_pauses :
      (now : String)
      → MayPause
      → ((reply : Reply) × ((transition p w db q (some Status.paused) now).0 ≡ ok reply))
        × ((r' : MissionRow) × (mission_row
                (transition p w db q (some Status.paused) now).1
                q.mission_id
              ≡ some r')
            × (r'.status ≡ Status.paused))
  transition_pauses now may =
      let d : Decision = transitioned r Status.paused true in
      let e : transition p w db q (some Status.paused) now
          ≡ (ok (reply_of d true), commit q.mission_id now d (w.others db)) =
        unfold transition conclude transitioned in rw (pause_decision may, may.direct) refl in
      (
        (reply_of d true, ap (λ x. x.0) e),
        (
          decided d now r,
          rw e (
              committed_self (w.others db) q.mission_id now d r (unfold transitioned in refl)
                may.found),
          unfold decided transitioned in refl,
        ),
      )
