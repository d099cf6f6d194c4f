-- ===== src/Delegations/Verified/Reconciles.antt =====
-- Reconciliations make a success of a satisfied contract only.
use hermes_gpt.Prelude.{
  ◌-◌, Bool, true, false, Option, none, some, List, ◌≡◌, refl, inl, inr, arith, ◌&&◌, ◌||◌, leb,
  Bool-cases, if◌then◌else◌,
}
use hermes_gpt.Prelude.Rows.{select}
use hermes_gpt.Delegations.{
  State, succeeded, cancelled, reconciling, same_state, is_terminal, satisfied, same_verdict, Row,
  id_key,
}
use hermes_gpt.Delegations.Reconcile
use hermes_gpt.Delegations.Verified.{AllProved, update-AllProved}

-- What a resolution makes a success of has been verified.
abbrev Verified : Reconcile.Input → State → Type 0
Verified i s = same_state s succeeded ≡ true → same_verdict i.verdict satisfied ≡ true

if-Verified :
    (i : Reconcile.Input) (b : Bool) (s t : State)
    → Verified i s
    → (b ≡ false → Verified i t)
    → Verified i (if b then s else t)
if-Verified i true s t hs ht = hs
if-Verified i false s t hs ht = ht refl

checked-Verified :
    (i : Reconcile.Input) (s : State) → Reconcile.is_unverified s i.verdict ≡ false → Verified i s
checked-Verified i s h wins = ground (arith, h, wins)

module _ (i : Reconcile.Input) (r : Row) where
  resolve_fresh-Verified : (s : State) → Verified i (Reconcile.resolve_fresh i r s).desired
  resolve_fresh-Verified s = elim (Bool-cases (same_state s cancelled)) [
    | inl e ↦ rw (e) (λ wins. absurd cc)
    | inr e ↦ rw (e) (
        if-Verified i (Reconcile.is_unverified s i.verdict) reconciling s (λ wins. absurd cc)
          (checked-Verified i s))
  ]

  resolve_state-Verified : (s : State) → Verified i (Reconcile.resolve_state i r s).desired
  unfolding Reconcile.resolve_state
  resolve_state-Verified s = elim (Bool-cases (Reconcile.is_authoritative r)) [
    | inl e ↦ rw (e) (λ wins. absurd cc)
    | inr e ↦
        elim (Bool-cases
          (Reconcile.is_pending r && (is_terminal s && Reconcile.is_fresh r i.observed))) [
            | inl fresh ↦ rw (e, fresh) (resolve_fresh-Verified s)
            | inr old ↦ elim (Bool-cases (Reconcile.is_pending r)) [
              | inl pending ↦ rw (e, old, pending) (λ wins. absurd cc)
              | inr calm ↦
                  elim (Bool-cases
                    (Reconcile.is_missing i.observed || Reconcile.is_unverified s i.verdict)) [
                      | inl missing ↦ rw (e, old, calm, missing) (λ wins. absurd cc)
                      | inr seen ↦
                          rw (e, old, calm, seen) (checked-Verified i s (ground (arith, seen)))
                    ]
            ]
          ]
  ]

  with_defect-Verified :
      (z : Reconcile.Resolution)
      → Verified i z.desired
      → Verified i (Reconcile.with_defect i r z).desired
  with_defect-Verified z h =
      elim (Bool-cases (leb Reconcile.validation_grace_seconds (i.now - Reconcile.since r i.now))) [
        | inl late ↦ rw (late) (λ wins. absurd cc)
        | inr early ↦ rw (early) h
      ]

  resolve-Verified : Verified i (Reconcile.resolve i r).desired
  unfolding Reconcile.resolve
  resolve-Verified =
      let s = Reconcile.observed_state i.texts r i.observed in
      elim (Bool-cases (Reconcile.is_defect i r s)) [
        | inl defect ↦
            rw (defect)
              (with_defect-Verified (Reconcile.resolve_state i r s) (resolve_state-Verified s))
        | inr fine ↦ rw (fine) (resolve_state-Verified s)
      ]

write-AllProved :
    (q : Reconcile.Request) (i : Reconcile.Input) (stored : Row) (rows : List Row)
    (found : Option Row)
    → AllProved rows
    → AllProved (Reconcile.write_found q i stored rows found).0
write-AllProved q i stored rows none h = h
write-AllProved q i stored rows (some r) h = elim (Bool-cases (Reconcile.same_authority r stored)) [
  | inl e ↦ rw (e) (
      update-AllProved _ (Reconcile.reconciled i stored (Reconcile.resolve i stored)) rows
        (λ x won. resolve-Verified i stored) h)
  | inr e ↦ rw (e) h
]

pub reconcile_step-AllProved :
    (q : Reconcile.Request) (i : Reconcile.Input) (rows : List Row) (p : Reconcile.Place)
    → AllProved rows
    → AllProved (Reconcile.reconcile_step q i rows p).0
unfolding Reconcile.reconcile_step Reconcile.write
reconcile_step-AllProved q i rows Reconcile.reading h = h
reconcile_step-AllProved q i rows (Reconcile.writing stored) h = elim (Bool-cases q.apply) [
  | inl on ↦ rw (on) (write-AllProved q i stored rows (select (id_key q.delegation_id) rows) h)
  | inr off ↦ rw (off) h
]
reconcile_step-AllProved q i rows (Reconcile.done r) h = h
