-- ===== src/Mission/Lifecycle/Completed.antt =====
-- The calls of the mission tools, from any callers, and what they do to a mission.
use hermes_gpt.Prelude.{String, true, false, Option, some, ◌≡◌, ◌⊎◌}
use hermes_gpt.Policy.{OperatorPolicy}
use hermes_gpt.Mission.Defs.{Status, is_terminal_status, MissionRow, MissionDb, mission_row}
use hermes_gpt.Mission.Guards.{World}
use hermes_gpt.Mission.Lifecycle.{Request}
use hermes_gpt.Mission.Lifecycle.Evolves.{Follows}
use hermes_gpt.Mission.Lifecycle.Evolves.Decided.{Grounded, conclude-Grounded}
use hermes_gpt.Mission.Lifecycle.Reconcile.{reconcile, reconcile_decide}
use hermes_gpt.Mission.Lifecycle.Reconcile.Sound.{reconcile-Follows, reconcile_permitted}
use hermes_gpt.Mission.Lifecycle.Transition.{transition, transition_decide}
use hermes_gpt.Mission.Lifecycle.Transition.Sound.{transition-Follows, transition_permitted}
use hermes_gpt.Mission.Lifecycle.Approve.{
  approve, approve_decide, approve-Follows, approve_permitted,
}

-- The three calls that change a status, each with its time.
pub data Call : Type 0 where
  reconciling : Request → String → Call
  transitioning : Request → Option Status → String → Call
  approving : Request → String → Call

abbrev pub call : OperatorPolicy → World → MissionDb → Call → MissionDb
call p w db (reconciling q now) = (reconcile p w db q now).1
call p w db (transitioning q target now) = (transition p w db q target now).1
call p w db (approving q now) = (approve p w db q now).1

-- When the other writers follow the protocol (they move the version with every change, leave no
-- terminal status, and complete no approval-required mission without an approval), each of the
-- calls hermes_mission_reconcile, hermes_mission_transition and hermes_mission_approve does.
pub call-Follows :
    (p : OperatorPolicy) (w : World) (db : MissionDb) (c : Call)
    → Follows db (w.others db)
    → Follows db (call p w db c)
call-Follows p w db (reconciling q now) follows = reconcile-Follows p w db q now follows
call-Follows p w db (transitioning q target now) follows =
    transition-Follows p w db q target now follows
call-Follows p w db (approving q now) follows = approve-Follows p w db q now follows

-- When the other writers follow the protocol and leave the mission in a status that is not terminal,
-- a call that leaves it completed has observed that all its children had ended, verified where they
-- succeeded, with one success, the guard of the delegations confirmed it at the commit, and a mission
-- that asks for an approval had it or got it from a policy that is ready for Owner Mode.
pub call_completes :
    (p : OperatorPolicy) (w : World) (db : MissionDb) (c : Call) (m : String) (r r' : MissionRow)
    → Follows db (w.others db)
    → mission_row (w.others db) m ≡ some r
    → is_terminal_status r.status ≡ false
    → mission_row (call p w db c) m ≡ some r'
    → r'.status ≡ Status.completed
    → Grounded w db m
      × (r.final_approval_required ≡ true → (r.approved ≡ true) ⊎ (p.owner_mode_ready ≡ true))
unfolding reconcile transition approve
call_completes p w db (reconciling q now) m r r' follows h active h' done =
    let (_, grounded, owner) =
      conclude-Grounded p w db q now (reconcile_decide p w db q) m r r'
        (λ d e wet. reconcile_permitted p w db q d follows e wet) h active h' done in
    (grounded, owner)
call_completes p w db (transitioning q target now) m r r' follows h active h' done =
    let (_, grounded, owner) =
      conclude-Grounded p w db q now (transition_decide p w db q target) m r r'
        (λ d e wet. transition_permitted p w db q target d follows e wet) h active h' done in
    (grounded, owner)
call_completes p w db (approving q now) m r r' follows h active h' done =
    let (_, grounded, owner) =
      conclude-Grounded p w db q now (approve_decide p w db q) m r r'
        (λ d e wet. approve_permitted p w db q d follows e wet) h active h' done in
    (grounded, owner)
