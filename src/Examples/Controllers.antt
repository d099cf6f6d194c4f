-- ===== src/Examples/Controllers.antt =====
-- Two passes that contend for a lease, a queue of triggers, and a frontier.
use hermes_gpt.Prelude.{
  suc, ◌<◌, String, ◌≡◌, ◌≢◌, ◌⊎◌, ◌↔◌, refl, true, false, none, some, List, [], ◌∷◌, any, arith,
  eq_iff,
}
use hermes_gpt.Prelude.Result.{ok}
use hermes_gpt.Prelude.Rows.{select, count}
use hermes_gpt.Plan.Ids.{is_mission_id}
use hermes_gpt.Plan.State.{pending, completed}
use hermes_gpt.Mission.Guards.{get_row}
use hermes_gpt.Controller.Lease.{LeaseRow, Acquire, lease_key, acquire_lease}
use hermes_gpt.Controller.Lease.Exclusive.{
  Holds, LeaseOp, acquiring, renewing, marking, lease_ops, lease_ops-Holds, acquire_lease_iff,
}
use hermes_gpt.Controller.Triggers.{
  Queue, trigger_key, is_trigger, seq_of, trigger, trigger_enqueues,
}
use hermes_gpt.Controller.Frontier.{
  ControllerNode, parent_done, is_ready_state, in_flight_order, at_one_of, is_actionable, frontier,
  frontier_sound,
}
use hermes_gpt.Examples.Missions.{db}

abbrev lease : LeaseRow
lease = record {
  mission_id = "msn-1";
  lease_lock = "pass-a";
  lease_expires = 50;
  trigger_kind = "T1_periodic";
  pass_seq = 4;
  recheck_needed = false;
  node_id = "";
  heartbeat_at = 10;
  created_at = 1;
  updated_at = 10;
}

abbrev contender : Acquire
contender = record {
  mission_id = "msn-1";
  trigger_kind = "T5_manual";
  ttl = 30;
  lease_lock = "pass-b";
  node_id = "";
  now = 40;
  later = 41;
}

abbrev others : List LeaseOp
others = acquiring contender ∷ marking "msn-1" 42 ∷ renewing "msn-1" "pass-b" 30 45 46 ∷ []

lease_held : Holds (lease ∷ []) "msn-1" "pass-a" 50
unfolding select
lease_held = (lease, refl, refl, refl)

other_lock : ◌≢◌ {A = String} "pass-b" "pass-a"
other_lock h = ground (arith, eq_iff "pass-b" "pass-a")

lease_ops-Holds_example : Holds (lease_ops (lease ∷ []) others) "msn-1" "pass-a" 50
lease_ops-Holds_example =
    lease_ops-Holds (lease ∷ []) others "msn-1" "pass-a" 50 (omega arith, (tt, (other_lock, tt)))
      lease_held

acquire_lease_iff_example :
    ((acquire_lease contender (lease ∷ [])).0.acquired ≡ true)
    ↔ ((r : LeaseRow) → select (lease_key "msn-1") (lease ∷ []) ≡ some r → r.lease_expires < 40)
unfolding count
acquire_lease_iff_example = acquire_lease_iff contender (lease ∷ []) (omega arith)

abbrev queue : Queue
queue = record {
  triggers = record { mission_id = "msn-1"; trigger_kind = "T1_periodic"; ref = ""; seq = 2 } ∷ [];
  leases = lease ∷ [];
}

trigger_accepted : (trigger db "msn-1" "T5_manual" "ui" 42 queue).0 ≡ ok 3
unfolding trigger is_mission_id is_trigger get_row select seq_of
trigger_accepted = refl

trigger_enqueues_example :
    (3 ≡ suc (seq_of queue.triggers "msn-1"))
    × (select (trigger_key "msn-1") (trigger db "msn-1" "T5_manual" "ui" 42 queue).1.triggers
        ≡ some (record { mission_id = "msn-1"; trigger_kind = "T5_manual"; ref = "ui"; seq = 3 }))
    × ((n : String)
        → n ≢ "msn-1"
        → select (trigger_key n) (trigger db "msn-1" "T5_manual" "ui" 42 queue).1.triggers
          ≡ select (trigger_key n) queue.triggers)
trigger_enqueues_example = trigger_enqueues db "msn-1" "T5_manual" "ui" 42 queue 3 trigger_accepted

abbrev built : ControllerNode
built = record { node_id = "build"; state = completed; deps = [] }

abbrev waiting_node : ControllerNode
waiting_node = record { node_id = "ship"; state = pending; deps = "build" ∷ [] }

frontier_found : frontier (built ∷ waiting_node ∷ []) ≡ some waiting_node
unfolding frontier select is_ready_state parent_done
frontier_found = refl

frontier_sound_example :
    (at_one_of in_flight_order waiting_node ≡ true)
    ⊎ ((any (at_one_of in_flight_order) (built ∷ waiting_node ∷ []) ≡ false)
        × (is_actionable (built ∷ waiting_node ∷ []) waiting_node ≡ true))
frontier_sound_example = frontier_sound (built ∷ waiting_node ∷ []) waiting_node frontier_found

frontier_empty : frontier (built ∷ []) ≡ none
unfolding frontier select is_ready_state parent_done
frontier_empty = refl
