-- ===== src/Plan.antt =====
-- operator_mission_plan.py: the plan of a mission, a DAG of nodes with a state machine each.
pub mod State
pub mod Ids
pub mod Node
pub mod Store
pub mod Dag
pub mod Ready
pub mod Transition
pub mod Gate
