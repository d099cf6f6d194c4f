-- ===== src/Delegations/Phases/Reconciled.antt =====
-- No step of a reconciliation makes a delegation claimable.
use mathlib.Core.Path.{subst}
use hermes_gpt.Prelude.{
  ◌-◌, leb, true, Option, none, some, List, ◌≡◌, refl, sym, inl, inr, arith, ◌&&◌, ◌||◌, Bool-cases,
}
use hermes_gpt.Prelude.Rows.{select}
use hermes_gpt.Delegations.{
  State, same_state, Phase, reserved, cancelled, same_phase, is_terminal, Row, id_key,
}
use hermes_gpt.Delegations.Reconcile
use hermes_gpt.Delegations.Phases.{Closes, Closes-refl, update-Closes, read_row}

-- A phase that is another's, or is not that of a delegation that waits.
abbrev Follows : Phase → Phase → Type 0
Follows new old = same_phase new reserved ≡ true → same_phase old reserved ≡ true

reserved_cancelled : same_phase cancelled reserved ≡ true → ⊥
reserved_cancelled h = cc

module _ (i : Reconcile.Input) (stored : Row) where
  resolve_fresh-phase :
      (s : State)
      → Follows (Reconcile.resolve_fresh i stored s).dispatch_phase stored.dispatch_phase
  resolve_fresh-phase s h = elim (Bool-cases (same_state s State.cancelled)) [
    | inl e ↦ absurd (reserved_cancelled (rw (e) at h))
    | inr e ↦ rw (e) at h
  ]

  resolve_state-phase :
      (s : State)
      → Follows (Reconcile.resolve_state i stored s).dispatch_phase stored.dispatch_phase
  unfolding Reconcile.resolve_state
  resolve_state-phase s h = elim (Bool-cases (Reconcile.is_authoritative stored)) [
    | inl e ↦ absurd (reserved_cancelled (rw (e) at h))
    | inr e ↦
        elim (Bool-cases (
          Reconcile.is_pending stored && (is_terminal s && Reconcile.is_fresh stored i.observed))) [
            | inl fresh ↦ resolve_fresh-phase s (rw (e, fresh) at h)
            | inr old ↦ elim (Bool-cases (Reconcile.is_pending stored)) [
              | inl pending ↦ rw (e, old, pending) at h
              | inr calm ↦
                  elim (Bool-cases
                    (Reconcile.is_missing i.observed || Reconcile.is_unverified s i.verdict)) [
                      | inl missing ↦ rw (e, old, calm, missing) at h
                      | inr seen ↦ rw (e, old, calm, seen) at h
                    ]
            ]
          ]
  ]

  with_defect-phase :
      (z : Reconcile.Resolution)
      → (Reconcile.with_defect i stored z).dispatch_phase ≡ z.dispatch_phase
  with_defect-phase z =
      elim (Bool-cases
        (leb Reconcile.validation_grace_seconds (i.now - Reconcile.since stored i.now))) [
          | inl late ↦ rw (late) refl
          | inr early ↦ rw (early) refl
        ]

  resolve-phase : Follows (Reconcile.resolve i stored).dispatch_phase stored.dispatch_phase
  unfolding Reconcile.resolve
  resolve-phase h =
      let s = Reconcile.observed_state i.texts stored i.observed in
      let z = Reconcile.resolve_state i stored s in
      elim (Bool-cases (Reconcile.is_defect i stored s)) [
        | inl defect ↦ resolve_state-phase s (rw (defect, with_defect-phase z) at h)
        | inr fine ↦ resolve_state-phase s (rw (fine) at h)
      ]

  reconciled_phase :
      (r : Row)
      → Reconcile.same_authority r stored ≡ true
      → Follows (Reconcile.resolve i stored).dispatch_phase r.dispatch_phase
  reconciled_phase r same h = ground (arith, resolve-phase h, same)

  pub write-Closes :
      (q : Reconcile.Request) (rows : List Row) (found : Option Row)
      → select (id_key q.delegation_id) rows ≡ found
      → Closes rows (Reconcile.write_found q i stored rows found).0
  write-Closes q rows none read = Closes-refl rows
  write-Closes q rows (some r) read = elim (Bool-cases (Reconcile.same_authority r stored)) [
    | inl same ↦ rw (same) (
        update-Closes (id_key q.delegation_id)
          (Reconcile.reconciled i stored (Reconcile.resolve i stored)) rows (λ r'. refl)
          (λ d r' found key h.
            subst (λ x. same_phase x.dispatch_phase reserved ≡ true)
              (sym (read_row rows q.delegation_id d r r' read found key))
              (reconciled_phase r same h)))
    | inr stale ↦ rw (stale) (Closes-refl rows)
  ]

pub reconcile_step-Closes :
    (q : Reconcile.Request) (i : Reconcile.Input) (rows : List Row) (p : Reconcile.Place)
    → Closes rows (Reconcile.reconcile_step q i rows p).0
unfolding Reconcile.reconcile_step Reconcile.write
reconcile_step-Closes q i rows Reconcile.reading = Closes-refl rows
reconcile_step-Closes q i rows (Reconcile.writing stored) = elim (Bool-cases q.apply) [
  | inl on ↦ rw (on) (write-Closes i stored q rows (select (id_key q.delegation_id) rows) refl)
  | inr off ↦ rw (off) (Closes-refl rows)
]
reconcile_step-Closes q i rows (Reconcile.done r) = Closes-refl rows
