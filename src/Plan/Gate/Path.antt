-- ===== src/Plan/Gate/Path.antt =====
-- operator_mission_plan.py: gate_approval_path, a breadth-first search over NODE_TRANSITIONS.
use hermes_gpt.Prelude.{
  ℕ, zero, suc, ◌≤◌, ◌≡◌, refl, Bool, true, false, not, ◌&&◌, ◌||◌, Option, none, some, List, [],
  ◌∷◌, ◌++◌, arith, any, length, if◌then◌else◌,
}
use hermes_gpt.Plan.State.{
  NodeState, same_state, pending, blockable, dispatched, running, awaiting_review, validated,
  awaiting_approval, completed, failed, paused, validate_node_transition,
}
use hermes_gpt.Plan.State.Graph.{Run, here, step, trace}

-- sorted(NODE_TRANSITIONS[current])
abbrev pub successors : NodeState → List NodeState
successors pending = blockable ∷ dispatched ∷ failed ∷ paused ∷ []
successors blockable = dispatched ∷ failed ∷ paused ∷ []
successors dispatched = failed ∷ paused ∷ running ∷ []
successors running = awaiting_review ∷ failed ∷ paused ∷ []
successors awaiting_review = failed ∷ paused ∷ validated ∷ []
successors validated = awaiting_approval ∷ failed ∷ paused ∷ []
successors awaiting_approval = completed ∷ failed ∷ paused ∷ []
successors completed = []
successors failed = []
successors paused = blockable ∷ failed ∷ running ∷ []

-- The dictionary `parent`: each state that was reached, with the state before it.
abbrev Parents : Type 0
Parents = List (NodeState × Option NodeState)

reached : Parents → NodeState → Bool
reached [] s = false
reached ((t, _) ∷ ps) s = same_state t s || reached ps s

parent_of : Parents → NodeState → Option NodeState
parent_of [] s = none
parent_of ((t, p) ∷ ps) s = if same_state t s then p else parent_of ps s

-- _GATE_PATH_EXCLUDED_INTERMEDIATES
unfoldable pub excluded : NodeState → Bool
excluded paused = true
excluded failed = true
excluded _ = false

-- `for nxt in sorted(...)`
visit : NodeState → NodeState → List NodeState → Parents → List NodeState → Parents × List NodeState
unfolding reached excluded
visit target current [] parent queue = (parent, queue)
visit target current (nxt ∷ rest) parent queue =
    let skip = reached parent nxt || (excluded nxt && not (same_state nxt target)) in
    visit target current rest (if skip then parent else (nxt, some current) ∷ parent)
      (if skip then queue else queue ++ nxt ∷ [])

-- `while queue and target not in parent`: ten states are queued at most once each.
bfs : ℕ → NodeState → Parents → List NodeState → Parents
unfolding visit
bfs zero target parent queue = parent
bfs (suc fuel) target parent [] = parent
bfs (suc fuel) target parent (current ∷ queue) =
    let (parent', queue') = visit target current (successors current) parent queue in
    let rest = bfs fuel target parent' queue' in if reached parent target then parent else rest

-- `while cursor is not None and cursor != start`, put in front instead of reversed at the end.
walk_back : ℕ → NodeState → Parents → Option NodeState → List NodeState → List NodeState
unfolding parent_of
walk_back zero start parent cursor path = path
walk_back (suc fuel) start parent none path = path
walk_back (suc fuel) start parent (some c) path =
    let rest = walk_back fuel start parent (parent_of parent c) (c ∷ path) in
    if same_state c start then path else rest

-- gate_approval_path(start, target); `none` is the ValueError "no legal path".
unfoldable pub gate_approval_path : NodeState → NodeState → Option (List NodeState)
unfolding bfs walk_back
gate_approval_path start target =
    let parent = bfs 11 target ((start, none) ∷ []) (start ∷ []) in
    if reached parent target then some (walk_back 11 start parent (some target) []) else none

-- A list of states that are entered one after another from `s`, the last of them `t`.
abbrev pub IsPath : NodeState → List NodeState → NodeState → Type 0
IsPath s [] t = s ≡ t
IsPath s (x ∷ xs) t = (validate_node_transition s x ≡ true) × IsPath x xs t

legal : NodeState → List NodeState → NodeState → Bool
legal s [] t = same_state s t
legal s (x ∷ xs) t = validate_node_transition s x && legal x xs t

legal-IsPath :
    (s : NodeState) (p : List NodeState) (t : NodeState) → legal s p t ≡ true → IsPath s p t
unfolding legal
legal-IsPath s [] t h = ground arith
legal-IsPath s (x ∷ xs) t h = (ground arith, legal-IsPath x xs t (ground arith))

answer_legal : NodeState → NodeState → Bool
answer_legal s t = elim (gate_approval_path s t) [ none ↦ true | some p ↦ legal s p t ]

answers_legal : (s t : NodeState) → answer_legal s t ≡ true
unfolding answer_legal gate_approval_path legal validate_node_transition
answers_legal pending pending = refl
answers_legal pending _ = refl
answers_legal blockable pending = refl
answers_legal blockable _ = refl
answers_legal dispatched pending = refl
answers_legal dispatched _ = refl
answers_legal running pending = refl
answers_legal running _ = refl
answers_legal awaiting_review pending = refl
answers_legal awaiting_review _ = refl
answers_legal validated pending = refl
answers_legal validated _ = refl
answers_legal awaiting_approval pending = refl
answers_legal awaiting_approval _ = refl
answers_legal completed pending = refl
answers_legal completed _ = refl
answers_legal failed pending = refl
answers_legal failed _ = refl
answers_legal paused pending = refl
answers_legal paused _ = refl

-- Whatever the two states, the states that gate_approval_path returns are legal transitions from
-- the start to the target.
pub gate_approval_path-IsPath :
    (s t : NodeState) (p : List NodeState) → gate_approval_path s t ≡ some p → IsPath s p t
gate_approval_path-IsPath s t p h =
    legal-IsPath s p t (unfold answer_legal in rw (h, answer_legal) at (answers_legal s t))

-- The states of GATE_APPROVABLE_STATES.
unfoldable pub approvable : NodeState → Bool
approvable completed = false
approvable failed = false
approvable paused = false
approvable _ = true

-- How many transitions a node is away from `completed`.
abbrev distance : NodeState → ℕ
distance pending = 6
distance blockable = 6
distance dispatched = 5
distance running = 4
distance awaiting_review = 3
distance validated = 2
distance awaiting_approval = 1
distance completed = 0
distance failed = 7
distance paused = 5

distance-le :
    (s t : NodeState) → validate_node_transition s t ≡ true → distance s ≤ suc (distance t)
unfolding validate_node_transition
distance-le s t e = ground arith

run-distance : {s u : NodeState} (r : Run s u) → u ≡ completed → distance s ≤ length (trace r)
run-distance {s = s} here e = ground arith
run-distance {s = s} (step t e r) h = omega (arith, distance-le s t e, run-distance r h)

record Found (s : NodeState) : Type 0 where
  path : List NodeState
  answer : gate_approval_path s completed ≡ some path
  long : length path ≡ distance s
  forward : any excluded path ≡ false

answer_pending :
    gate_approval_path pending completed
    ≡ some (dispatched ∷ running ∷ awaiting_review ∷ validated ∷ awaiting_approval ∷ completed ∷ [])
unfolding gate_approval_path
answer_pending = refl

answer_blockable :
    gate_approval_path blockable completed
    ≡ some (dispatched ∷ running ∷ awaiting_review ∷ validated ∷ awaiting_approval ∷ completed ∷ [])
unfolding gate_approval_path
answer_blockable = refl

answer_dispatched :
    gate_approval_path dispatched completed
    ≡ some (running ∷ awaiting_review ∷ validated ∷ awaiting_approval ∷ completed ∷ [])
unfolding gate_approval_path
answer_dispatched = refl

answer_running :
    gate_approval_path running completed
    ≡ some (awaiting_review ∷ validated ∷ awaiting_approval ∷ completed ∷ [])
unfolding gate_approval_path
answer_running = refl

answer_awaiting_review :
    gate_approval_path awaiting_review completed
    ≡ some (validated ∷ awaiting_approval ∷ completed ∷ [])
unfolding gate_approval_path
answer_awaiting_review = refl

answer_validated :
    gate_approval_path validated completed ≡ some (awaiting_approval ∷ completed ∷ [])
unfolding gate_approval_path
answer_validated = refl

answer_awaiting_approval : gate_approval_path awaiting_approval completed ≡ some (completed ∷ [])
unfolding gate_approval_path
answer_awaiting_approval = refl

found : (s : NodeState) → approvable s ≡ true → Found s
unfolding approvable excluded
found pending h = record {
  path = dispatched ∷ running ∷ awaiting_review ∷ validated ∷ awaiting_approval ∷ completed ∷ [];
  answer = answer_pending;
  long = refl;
  forward = refl;
}
found blockable h = record {
  path = dispatched ∷ running ∷ awaiting_review ∷ validated ∷ awaiting_approval ∷ completed ∷ [];
  answer = answer_blockable;
  long = refl;
  forward = refl;
}
found dispatched h = record {
  path = running ∷ awaiting_review ∷ validated ∷ awaiting_approval ∷ completed ∷ [];
  answer = answer_dispatched;
  long = refl;
  forward = refl;
}
found running h = record {
  path = awaiting_review ∷ validated ∷ awaiting_approval ∷ completed ∷ [];
  answer = answer_running;
  long = refl;
  forward = refl;
}
found awaiting_review h = record {
  path = validated ∷ awaiting_approval ∷ completed ∷ [];
  answer = answer_awaiting_review;
  long = refl;
  forward = refl;
}
found validated h = record {
  path = awaiting_approval ∷ completed ∷ [];
  answer = answer_validated;
  long = refl;
  forward = refl;
}
found awaiting_approval h = record {
  path = completed ∷ [];
  answer = answer_awaiting_approval;
  long = refl;
  forward = refl;
}
found _ h = cc

-- From every state of GATE_APPROVABLE_STATES the search returns legal transitions from the state to
-- `completed`, which enter neither `paused` nor `failed`, and no run of legal transitions to
-- `completed` is shorter.
pub gate_approval_path_shortest :
    (s : NodeState)
    → approvable s ≡ true
    → (r : Run s completed)
    → (p : List NodeState) × (gate_approval_path s completed ≡ some p)
      × IsPath s p completed
      × (any excluded p ≡ false)
      × (length p ≤ length (trace r))
gate_approval_path_shortest s h r =
    let f = found s h in
    (
      f.path,
      f.answer,
      gate_approval_path-IsPath s completed f.path f.answer,
      f.forward,
      omega (arith, f.long, run-distance r refl),
    )
