-- ===== src/Plan/State.antt =====
-- operator_mission_plan.py: NODE_STATES, NODE_TRANSITIONS, validate_node_transition.
pub mod Graph
use hermes_gpt.Prelude.{ℕ, eqb, String, Bool, true, false, Option, none, some, ◌==◌, if◌then◌else◌}

pub data NodeState : Type 0 where
  pending blockable dispatched running awaiting_review validated awaiting_approval : NodeState
  completed failed paused : NodeState

-- The state's place in NODE_STATES, by which two states are compared.
abbrev pub position : NodeState → ℕ
position pending = 0
position blockable = 1
position dispatched = 2
position running = 3
position awaiting_review = 4
position validated = 5
position awaiting_approval = 6
position completed = 7
position failed = 8
position paused = 9

abbrev pub same_state : NodeState → NodeState → Bool
same_state a b = eqb (position a) (position b)

-- NODE_STATES: the names that a caller may give.
unfoldable pub node_state_of : String → Option NodeState
node_state_of name =
    if name == "pending"
    then some pending
    else if name == "blockable"
    then some blockable
    else if name == "dispatched"
    then some dispatched
    else if name == "running"
    then some running
    else if name == "awaiting_review"
    then some awaiting_review
    else if name == "validated"
    then some validated
    else if name == "awaiting_approval"
    then some awaiting_approval
    else if name == "completed"
    then some completed
    else if name == "failed"
    then some failed
    else if name == "paused"
    then some paused
    else none

-- NODE_TRANSITIONS, and validate_node_transition over it.
unfoldable pub validate_node_transition : NodeState → NodeState → Bool
validate_node_transition pending blockable = true
validate_node_transition pending dispatched = true
validate_node_transition pending failed = true
validate_node_transition pending paused = true
validate_node_transition blockable dispatched = true
validate_node_transition blockable failed = true
validate_node_transition blockable paused = true
validate_node_transition dispatched running = true
validate_node_transition dispatched failed = true
validate_node_transition dispatched paused = true
validate_node_transition running awaiting_review = true
validate_node_transition running failed = true
validate_node_transition running paused = true
validate_node_transition awaiting_review validated = true
validate_node_transition awaiting_review failed = true
validate_node_transition awaiting_review paused = true
validate_node_transition validated awaiting_approval = true
validate_node_transition validated failed = true
validate_node_transition validated paused = true
validate_node_transition awaiting_approval completed = true
validate_node_transition awaiting_approval failed = true
validate_node_transition awaiting_approval paused = true
validate_node_transition paused running = true
validate_node_transition paused blockable = true
validate_node_transition paused failed = true
validate_node_transition _ _ = false

-- TERMINAL_NODE_STATES
unfoldable pub is_terminal : NodeState → Bool
is_terminal completed = true
is_terminal failed = true
is_terminal _ = false
