-- ===== src/Delegations/Claimed/Steps.antt =====
-- Each step of a dispatch.
use hermes_gpt.Prelude.{
  ℕ, ◌+◌, ◌≤◌, String, true, false, not, Option, none, some, List, ◌≡◌, refl, sym, ◌∙◌, inl, inr,
  arith, ◌==◌, ◌&&◌, ◌||◌, Bool-cases, Option-cases,
}
use hermes_gpt.Prelude.Names.{one_if}
use hermes_gpt.Prelude.Rows.{select, update}
use hermes_gpt.Delegations.{
  Phase, reserved, invoking, dispatched, cancelled, Row, id_key, invoked_key, one_changed,
}
use hermes_gpt.Delegations.Dispatch
use hermes_gpt.Delegations.Phases.{claimable, IsKeyed, Closes, Closes-refl, update-IsKeyed}
use hermes_gpt.Delegations.Run.{was_rejected, submits}
use hermes_gpt.Delegations.Claimed.{
  holding, Fair, reserve-Closes, claim-Closes, claim_takes, Closes-at, update_elsewhere,
  record-Closes, mark-Closes,
}

-- A call that finds its lineage holds nothing.
resume_phase_idle : (p : Phase) → holding (Dispatch.resume_phase p) ≡ 0
resume_phase_idle reserved = refl
resume_phase_idle invoking = refl
resume_phase_idle dispatched = refl
resume_phase_idle cancelled = refl

resume_manifest_idle :
    (q : Dispatch.Request) (r : Row) (context : Option String)
    → holding (Dispatch.resume_manifest q r context) ≡ 0
resume_manifest_idle q r none = refl
resume_manifest_idle q r (some context) = ground (arith, resume_phase_idle r.dispatch_phase)

reserve_idle :
    (q : Dispatch.Request) (now : ℕ) (rows : List Row) (found : Option Row)
    → holding (Dispatch.reserve_found q now rows found).1 ≡ 0
reserve_idle q now rows none = refl
reserve_idle q now rows (some r) = ground (arith, resume_manifest_idle q r r.context_sha256)

claim_lost_idle : (found : Option Row) → holding (Dispatch.claim_lost found) ≡ 0
claim_lost_idle none = refl
claim_lost_idle (some r) = ground arith

quiet :
    (d : String) (rows rows' : List Row) (h h' n : ℕ)
    → Closes rows rows'
    → h' + n ≤ h
    → Fair d rows rows' h h' n
quiet d rows rows' h h' n c le = inl (Closes-at rows rows' d c, le)

claim-Fair :
    (d : String) (now : ℕ) (rows : List Row)
    → IsKeyed rows
    → Fair d rows (Dispatch.claim d now rows).0 0 (holding (Dispatch.claim d now rows).1) 0
unfolding Dispatch.claim
claim-Fair d now rows keyed = elim (Bool-cases (one_changed (Dispatch.claim_key d) rows)) [
  | inl one ↦
      rw (one) (
        inr
          (inr ((claim_takes d now rows keyed one).0, (claim_takes d now rows keyed one).1, refl)))
  | inr lost ↦ rw (lost) (
      quiet d rows rows 0 (holding (Dispatch.claim_lost (select (id_key d) rows))) 0
        (Closes-refl rows) (omega (arith, claim_lost_idle (select (id_key d) rows))))
]

-- The code hands the claim back exactly where the backend has rejected the contract.
rejects :
    (b : Dispatch.BackendReply)
    → (not b.success && not (Dispatch.is_ambiguous b)) ≡ was_rejected (some b)
rejects b = elim (Option-cases b.changed) [
  | inl e ↦ rw (e) (ground arith)
  | inr (c, e) ↦ rw (e) (ground arith)
]

call-Fair :
    (d : String) (rows : List Row) (reply : Option Dispatch.BackendReply)
    → Fair d rows rows 1 (holding (Dispatch.call_backend reply)) (one_if (not (was_rejected reply)))
unfolding Dispatch.call_backend
call-Fair d rows none = quiet d rows rows 1 0 1 (Closes-refl rows) (omega arith)
call-Fair d rows (some b) =
    rw (sym (rejects b)) (elim (Bool-cases (not b.success && not (Dispatch.is_ambiguous b))) [
      | inl e ↦ rw (e) (quiet d rows rows 1 1 0 (Closes-refl rows) (omega arith))
      | inr e ↦ rw (e) (quiet d rows rows 1 0 1 (Closes-refl rows) (omega arith))
    ])

-- One step of a dispatch, for the delegation of its request.
pub own_step :
    (q : Dispatch.Request) (i : Dispatch.Input) (rows : List Row) (p : Dispatch.Place)
    → IsKeyed rows
    → Fair q.delegation_id rows
        (Dispatch.dispatch_step q i rows p).0
        (holding p)
        (holding (Dispatch.dispatch_step q i rows p).1)
        (one_if (submits i p))
unfolding Dispatch.dispatch_step Dispatch.reserve Dispatch.release_claim Dispatch.reject
    Dispatch.record_dispatch Dispatch.mark_ambiguous
own_step q i rows Dispatch.reserving keyed =
    let found = select (Dispatch.collides q) rows in
    quiet q.delegation_id rows (Dispatch.reserve_found q i.now rows found).0 0
      (holding (Dispatch.reserve_found q i.now rows found).1) 0
      (reserve-Closes q i.now rows found refl) (omega (arith, reserve_idle q i.now rows found))
own_step q i rows Dispatch.attaching keyed = elim (Bool-cases (q.mission_id == "" || i.attached)) [
  | inl e ↦ rw (e) (quiet q.delegation_id rows rows 0 0 0 (Closes-refl rows) (omega arith))
  | inr e ↦ rw (e) (quiet q.delegation_id rows rows 0 0 0 (Closes-refl rows) (omega arith))
]
own_step q i rows Dispatch.claiming keyed = claim-Fair q.delegation_id i.now rows keyed
own_step q i rows Dispatch.guarding keyed =
    elim (Bool-cases (q.mission_id == "" || i.dispatchable)) [
      | inl e ↦ rw (e) (quiet q.delegation_id rows rows 1 1 0 (Closes-refl rows) (omega arith))
      | inr e ↦ rw (e) (quiet q.delegation_id rows rows 1 1 0 (Closes-refl rows) (omega arith))
    ]
own_step q i rows Dispatch.releasing keyed = inr (inl (refl, refl))
own_step q i rows Dispatch.calling keyed = call-Fair q.delegation_id rows i.reply
own_step q i rows Dispatch.rejecting keyed = elim (Bool-cases i.raises) [
  | inl e ↦ rw (e) (inr (inl (refl, refl)))
  | inr e ↦ rw (e) (inr (inl (refl, refl)))
]
own_step q i rows Dispatch.marking keyed = elim (Bool-cases i.raises) [
  | inl e ↦ rw (e) (quiet q.delegation_id rows rows 0 0 0 (Closes-refl rows) (omega arith))
  | inr e ↦ rw (e) (
      quiet q.delegation_id rows (update (invoked_key q.delegation_id) (Dispatch.marked i.now) rows)
        0 0 0 (mark-Closes q.delegation_id i.now rows) (omega arith))
]
own_step q i rows (Dispatch.recording ambiguous s) keyed = elim (Bool-cases i.raises) [
  | inl e ↦ rw (e) (quiet q.delegation_id rows rows 0 0 0 (Closes-refl rows) (omega arith))
  | inr e ↦ rw (e) (
      quiet q.delegation_id rows
        (update (invoked_key q.delegation_id) (Dispatch.recorded i ambiguous s) rows) 0 0 0
        (record-Closes q.delegation_id i ambiguous s rows) (omega arith))
]
own_step q i rows (Dispatch.done r) keyed = inl ((λ h. h), omega arith)

-- For another delegation.
pub other_step :
    (q : Dispatch.Request) (i : Dispatch.Input) (rows : List Row) (p : Dispatch.Place) (d : String)
    → (q.delegation_id == d) ≡ false
    → claimable (Dispatch.dispatch_step q i rows p).0 d ≡ true
    → claimable rows d ≡ true
unfolding Dispatch.dispatch_step Dispatch.reserve Dispatch.claim Dispatch.release_claim
    Dispatch.reject Dispatch.record_dispatch Dispatch.mark_ambiguous
other_step q i rows Dispatch.reserving d other h =
    Closes-at rows _ d (reserve-Closes q i.now rows (select (Dispatch.collides q) rows) refl) h
other_step q i rows Dispatch.attaching d other h = h
other_step q i rows Dispatch.claiming d other h =
    elim (Bool-cases (one_changed (Dispatch.claim_key q.delegation_id) rows)) [
      | inl one ↦ Closes-at rows _ d (claim-Closes q.delegation_id i.now rows) (rw (one) at h)
      | inr lost ↦ rw (lost) at h
    ]
other_step q i rows Dispatch.guarding d other h = h
other_step q i rows Dispatch.releasing d other h =
    sym (
      update_elsewhere (Dispatch.phase_key q.delegation_id) (Dispatch.released i.now) rows
        q.delegation_id d (λ r. refl) (λ r key. ground (arith, key)) other)
    ∙ h
other_step q i rows Dispatch.calling d other h = h
other_step q i rows Dispatch.rejecting d other h = elim (Bool-cases i.raises) [
  | inl e ↦ rw (e) at h
  | inr e ↦
      sym (
        update_elsewhere (invoked_key q.delegation_id) (Dispatch.released i.now) rows
          q.delegation_id d (λ r. refl) (λ r key. ground (arith, key)) other)
      ∙ (rw (e) at h)
]
other_step q i rows Dispatch.marking d other h = elim (Bool-cases i.raises) [
  | inl e ↦ rw (e) at h
  | inr e ↦ Closes-at rows _ d (mark-Closes q.delegation_id i.now rows) (rw (e) at h)
]
other_step q i rows (Dispatch.recording ambiguous s) d other h = elim (Bool-cases i.raises) [
  | inl e ↦ rw (e) at h
  | inr e ↦ Closes-at rows _ d (record-Closes q.delegation_id i ambiguous s rows) (rw (e) at h)
]
other_step q i rows (Dispatch.done r) d other h = h

pub keeps_key : (rows rows' : List Row) → Closes rows rows' → IsKeyed rows → IsKeyed rows'
unfolding Closes
keeps_key rows rows' c = c.0

pub dispatch_step-IsKeyed :
    (q : Dispatch.Request) (i : Dispatch.Input) (rows : List Row) (p : Dispatch.Place)
    → IsKeyed rows
    → IsKeyed (Dispatch.dispatch_step q i rows p).0
unfolding Dispatch.dispatch_step Dispatch.reserve Dispatch.claim Dispatch.release_claim
    Dispatch.reject Dispatch.record_dispatch Dispatch.mark_ambiguous
dispatch_step-IsKeyed q i rows Dispatch.reserving keyed =
    keeps_key rows _ (reserve-Closes q i.now rows (select (Dispatch.collides q) rows) refl) keyed
dispatch_step-IsKeyed q i rows Dispatch.attaching keyed = keyed
dispatch_step-IsKeyed q i rows Dispatch.claiming keyed =
    elim (Bool-cases (one_changed (Dispatch.claim_key q.delegation_id) rows)) [
      | inl one ↦ rw (one) (keeps_key rows _ (claim-Closes q.delegation_id i.now rows) keyed)
      | inr lost ↦ rw (lost) keyed
    ]
dispatch_step-IsKeyed q i rows Dispatch.guarding keyed = keyed
dispatch_step-IsKeyed q i rows Dispatch.releasing keyed =
    update-IsKeyed (Dispatch.phase_key q.delegation_id) (Dispatch.released i.now) rows (λ r. refl)
      keyed
dispatch_step-IsKeyed q i rows Dispatch.calling keyed = keyed
dispatch_step-IsKeyed q i rows Dispatch.rejecting keyed = elim (Bool-cases i.raises) [
  | inl e ↦ rw (e) keyed
  | inr e ↦ rw (e) (
      update-IsKeyed (invoked_key q.delegation_id) (Dispatch.released i.now) rows (λ r. refl) keyed)
]
dispatch_step-IsKeyed q i rows Dispatch.marking keyed = elim (Bool-cases i.raises) [
  | inl e ↦ rw (e) keyed
  | inr e ↦ rw (e) (keeps_key rows _ (mark-Closes q.delegation_id i.now rows) keyed)
]
dispatch_step-IsKeyed q i rows (Dispatch.recording ambiguous s) keyed = elim (Bool-cases i.raises) [
  | inl e ↦ rw (e) keyed
  | inr e ↦ rw (e) (keeps_key rows _ (record-Closes q.delegation_id i ambiguous s rows) keyed)
]
dispatch_step-IsKeyed q i rows (Dispatch.done r) keyed = keyed
