-- ===== src/Plan/State/Graph.antt =====
-- The diagram of the node state machine: runs of legal transitions and the states they enter.
use hermes_gpt.Prelude.{◌≡◌, refl, List, [], ◌∷◌, arith, true}
use hermes_gpt.Plan.State.{
  NodeState, pending, blockable, dispatched, running, awaiting_review, validated, awaiting_approval,
  completed, failed, paused, validate_node_transition, is_terminal,
}

-- Legal transitions one after another.
pub data Run : NodeState → NodeState → Type 0 where
  here : {s : NodeState} → Run s s
  step : {s u : NodeState} (t : NodeState) → validate_node_transition s t ≡ true → Run t u → Run s u

-- The states that a run enters, in order.
abbrev pub trace : {s u : NodeState} → Run s u → List NodeState
trace here = []
trace (step t e r) = t ∷ trace r

-- The first list is the second with some entries left out.
pub data Within : List NodeState → List NodeState → Type 0 where
  nil : {ys : List NodeState} → Within [] ys
  skip : {xs ys : List NodeState} (y : NodeState) → Within xs ys → Within xs (y ∷ ys)
  keep : {xs ys : List NodeState} (x : NodeState) → Within xs ys → Within (x ∷ xs) (x ∷ ys)

Within-drop : {x : NodeState} {xs ys : List NodeState} → Within (x ∷ xs) ys → Within xs ys
Within-drop (skip y w) = skip y (Within-drop w)
Within-drop (keep x w) = skip x w

-- What is still to be entered on the way to `completed`.
abbrev pub needed : NodeState → List NodeState
needed completed = []
needed awaiting_approval = completed ∷ []
needed validated = awaiting_approval ∷ completed ∷ []
needed awaiting_review = validated ∷ awaiting_approval ∷ completed ∷ []
needed running = awaiting_review ∷ validated ∷ awaiting_approval ∷ completed ∷ []
needed _ = running ∷ awaiting_review ∷ validated ∷ awaiting_approval ∷ completed ∷ []

-- A terminal state is final: every run from it ends where it began.
pub Run_of_terminal : {s u : NodeState} → Run s u → is_terminal s ≡ true → u ≡ s
unfolding validate_node_transition is_terminal
Run_of_terminal here h = refl
Run_of_terminal {s = s} (step t e r) h = absurd (ground arith)

advance :
    (s t : NodeState) (l : List NodeState)
    → validate_node_transition s t ≡ true
    → Within (needed t) l
    → Within (needed s) (t ∷ l)
unfolding validate_node_transition
advance pending blockable l e w = skip _ w
advance pending dispatched l e w = skip _ w
advance pending failed l e w = skip _ w
advance pending paused l e w = skip _ w
advance blockable dispatched l e w = skip _ w
advance blockable failed l e w = skip _ w
advance blockable paused l e w = skip _ w
advance dispatched running l e w = keep _ w
advance dispatched failed l e w = skip _ w
advance dispatched paused l e w = skip _ w
advance running awaiting_review l e w = keep _ w
advance running failed l e w = skip _ (Within-drop w)
advance running paused l e w = skip _ (Within-drop w)
advance awaiting_review validated l e w = keep _ w
advance awaiting_review failed l e w = skip _ (Within-drop (Within-drop w))
advance awaiting_review paused l e w = skip _ (Within-drop (Within-drop w))
advance validated awaiting_approval l e w = keep _ w
advance validated failed l e w = skip _ (Within-drop (Within-drop (Within-drop w)))
advance validated paused l e w = skip _ (Within-drop (Within-drop (Within-drop w)))
advance awaiting_approval completed l e w = keep _ w
advance awaiting_approval failed l e w =
    skip _ (Within-drop (Within-drop (Within-drop (Within-drop w))))
advance awaiting_approval paused l e w =
    skip _ (Within-drop (Within-drop (Within-drop (Within-drop w))))
advance paused running l e w = keep _ w
advance paused blockable l e w = skip _ w
advance paused failed l e w = skip _ w
advance _ _ l e w = cc

-- Every run to `completed` enters, in this order, all that its start still lacks of running,
-- awaiting_review, validated, awaiting_approval and completed; from `pending`, all five.
pub run_needed : {s u : NodeState} (r : Run s u) → u ≡ completed → Within (needed s) (trace r)
run_needed here h = rw h nil
run_needed {s = s} (step t e r) h = advance s t (trace r) e (run_needed r h)
