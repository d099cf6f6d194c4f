-- ===== src/Mission/Lifecycle/Transition/Sound.antt =====
-- hermes_mission_transition decides only what is permitted.
use mathlib.Core.Path.{subst}
use hermes_gpt.Prelude.{
  ◌≡◌, refl, arith, ap, inl, inr, Bool-cases, String, Bool, true, false, Option, none, some, List,
  not, leb, if◌then◌else◌,
}
use hermes_gpt.Prelude.Result.{ok, bind_ok, value_error, require}
use hermes_gpt.Policy.{
  OperatorPolicy, workspace, require_level, require_mutation, require_owner, effective_dry_run,
}
use hermes_gpt.Mission.Defs.{
  Status, same_status, same_status_sound, is_terminal_status, MissionRow, MissionDb, attached,
}
use hermes_gpt.Mission.Observe.{Observed, desired_mission_status}
use hermes_gpt.Mission.Guards.{World, get_row, completion_guard, cancellation_guard, same_authority}
use hermes_gpt.Mission.Observe.Justified.{desired_completed, Justified-approvable}
use hermes_gpt.Mission.Lifecycle.Evolves.{Follows, Follows-trans}
use hermes_gpt.Mission.Lifecycle.Evolves.Decided.{
  Permission, Permitted, Grounded, get_row_sound, same_row, conclude-Follows,
}
use hermes_gpt.Mission.Lifecycle.{Request, Decision, confirmed, observed_in}
use hermes_gpt.Mission.Lifecycle.Transition.{
  validate_transition, transitioned, transition_completed, transition_cancelled, transition_plain,
  transition_to, transition_decide, transition,
}

-- What validate lets through with a change.
record Validated (m : MissionRow) (items : List Observed) (target : Status) : Type 0 where
  active : is_terminal_status m.status ≡ false
  not_required : same_status target Status.completed ≡ true → m.final_approval_required ≡ false

validate_transition_sound :
    (m : MissionRow) (items : List Observed) (target : Status) {changed : Bool}
    → validate_transition m items target ≡ ok changed
    → Validated m items target
unfolding validate_transition is_terminal_status
validate_transition_sound m items target h = record {
  active = ground arith;
  not_required = λ completed. ground arith;
}

-- A validated change is permitted, given the ground of a completion.
Validated-Permitted :
    (p : OperatorPolicy) (w : World) (db : MissionDb) (m : String) (r : MissionRow)
    (items : List Observed) (target : Status) (changed : Bool)
    → Validated r items target
    → (target ≡ Status.completed → Grounded w db m)
    → Permitted p w db m r (transitioned r target changed)
unfolding transitioned
Validated-Permitted p w db m r items target changed v grounds = record {
  final = λ terminal. absurd (ground (arith, v.active));
  lawful = λ to required.
      absurd (ground (arith, v.not_required (ap (λ s. same_status s Status.completed) to)));
  grounds = λ _ to. grounds to;
  owner = λ approves. absurd (ground arith);
}

module _ (p : OperatorPolicy) (w : World) (db : MissionDb) (m : String) (d : Decision)
    (follows : Follows db (w.others db)) where
  completed_permitted : transition_completed w db m ≡ ok d → Permission p w db m d
  unfolding transition_completed
  completed_permitted h =
      let (seen, got, h1) = bind_ok (get_row db m) _ h in
      let (changed, valid, h2) =
        bind_ok (validate_transition seen (observed_in w.stores db m) Status.completed) _ h1 in
      let (_, again, h3) =
        bind_ok
          (require
            (same_status (desired_mission_status seen (observed_in w.stores_again db m))
              Status.completed)
            value_error)
          _ h2 in
      let (_, guard, h4) =
        bind_ok (completion_guard w.delegations m (observed_in w.stores_again db m)) _ h3 in
      let (cur, auth, done) = bind_ok (same_authority (w.others db) m seen) _ h4 in
      let (row, same) = same_row db (w.others db) m seen follows (get_row_sound db m got) auth in
      (
        seen,
        row,
        subst (Permitted p w db m seen) (ground (arith, done)) (
            Validated-Permitted p w db m seen _ Status.completed true
              (validate_transition_sound seen _ _ valid)
              (λ _. record {
                items = observed_in w.stores_again db m;
                seen = inr refl;
                ended = Justified-approvable seen w.stores_again m (attached m db.attachments) (
                    desired_completed seen _ (validate_transition_sound seen _ _ valid).active
                      (same_status_sound _ _ (ground (arith, again))));
                guarded = guard;
              })),
      )

  cancelled_permitted : transition_cancelled w db m ≡ ok d → Permission p w db m d
  unfolding transition_cancelled
  cancelled_permitted h =
      let (seen, got, h1) = bind_ok (get_row db m) _ h in
      let (changed, valid, h2) =
        bind_ok (validate_transition seen (observed_in w.stores db m) Status.cancelled) _ h1 in
      let (_, guard, h3) =
        bind_ok (cancellation_guard w.delegations m (observed_in w.stores db m)) _ h2 in
      let (cur, auth, done) = bind_ok (same_authority (w.others db) m seen) _ h3 in
      let (row, same) = same_row db (w.others db) m seen follows (get_row_sound db m got) auth in
      (
        seen,
        row,
        subst (Permitted p w db m seen) (ground (arith, done)) (
            Validated-Permitted p w db m seen _ Status.cancelled changed
              (validate_transition_sound seen _ _ valid) (λ to. absurd (ground arith))),
      )

  -- In one transaction.
  plain_permitted :
      (target : Status)
      → same_status target Status.completed ≡ false
      → transition_plain w (w.others db) m target ≡ ok d
      → Permission p w db m d
  unfolding transition_plain
  plain_permitted target other h =
      let (seen, got, h1) = bind_ok (get_row (w.others db) m) _ h in
      let (changed, valid, done) =
        bind_ok (validate_transition seen (observed_in w.stores (w.others db) m) target) _ h1 in
      (
        seen,
        get_row_sound (w.others db) m got,
        subst (Permitted p w db m seen) (ground (arith, done)) (
            Validated-Permitted p w db m seen _ target changed
              (validate_transition_sound seen _ _ valid) (λ to. absurd (ground arith))),
      )

module _ (p : OperatorPolicy) (w : World) (db : MissionDb) (q : Request) where
  to_permitted :
      (target : Status) (d : Decision)
      → Follows db (w.others db)
      → transition_to p w db q target ≡ ok d
      → effective_dry_run p q.dry_run ≡ false
      → Permission p w db q.mission_id d
  unfolding transition_to
  to_permitted target d follows h wet = elim (Bool-cases (same_status target Status.completed)) [
    | inl completes ↦
        completed_permitted p w db q.mission_id d follows (ground (arith, wet, completes, h))
    | inr other ↦ elim (Bool-cases (same_status target Status.cancelled)) [
      | inl cancels ↦
          cancelled_permitted p w db q.mission_id d follows (ground (arith, wet, other, cancels, h))
      | inr rest ↦
          plain_permitted p w db q.mission_id d follows target other
            (ground (arith, wet, other, rest, h))
    ]
  ]

  pub transition_permitted :
      (target : Option Status) (d : Decision)
      → Follows db (w.others db)
      → transition_decide p w db q target ≡ ok d
      → effective_dry_run p q.dry_run ≡ false
      → Permission p w db q.mission_id d
  unfolding transition_decide
  transition_permitted none d follows h wet = absurd cc
  transition_permitted (some target) d follows h wet =
      let (_, level, h1) = bind_ok (require_level p workspace) _ h in
      let (_, mutation, h2) = bind_ok (require_mutation p q.dry_run) _ h1 in
      let (_, text, h3) = bind_ok (require (leb q.text_length 1000) value_error) _ h2 in
      let (_, owner, h4) =
        bind_ok (if same_status target Status.completed then require_owner p q.dry_run else ok tt) _
          h3 in
      let (_, waits, h5) =
        bind_ok (require (not (same_status target Status.awaiting_approval)) value_error) _ h4 in
      let (_, confirm, h6) = bind_ok (confirmed p q) _ h5 in to_permitted target d follows h6 wet

  -- A transition, among writers that follow the protocol, follows it.
  pub transition-Follows :
      (target : Option Status) (now : String)
      → Follows db (w.others db)
      → Follows db (transition p w db q target now).1
  unfolding transition
  transition-Follows target now follows =
      Follows-trans db (w.others db) (transition p w db q target now).1 follows (
        conclude-Follows p w db q now (transition_decide p w db q target)
          (λ d h wet. transition_permitted target d follows h wet))
