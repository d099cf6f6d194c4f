-- ===== src/Delegations/Final/Latch.antt =====
-- A cancellation holds a row whose cancellation is in progress.
use hermes_gpt.Prelude.{
  ℕ, String, Bool, true, false, not, Option, none, some, List, ◌≡◌, refl, ap, ◌∙◌, inl, inr, arith,
  ◌==◌, ◌&&◌, Bool-cases, if◌then◌else◌,
}
use hermes_gpt.Prelude.Rows.{select, count_found}
use hermes_gpt.Delegations.{Phase, same_phase, is_terminal, Row, id_key, one_changed}
use hermes_gpt.Delegations.Cancel
use hermes_gpt.Delegations.Phases.{IsKeyed}
use hermes_gpt.Delegations.Final.Cancels.{Latched}

either_Latched :
    (b : Bool) (x y : Cancel.Reply) → Latched (if b then Cancel.done x else Cancel.done y)
either_Latched true x y = tt
either_Latched false x y = tt

claim-Latched :
    (q : Cancel.Request) (i : Cancel.Input) (rows : List Row) (found : Option Row)
    → Latched (Cancel.claim_found q i rows found).1
claim-Latched q i rows none = tt
claim-Latched q i rows (some r) = elim (Bool-cases (is_terminal r.state)) [
  | inl e ↦ rw (e) tt
  | inr e ↦ elim (Bool-cases (not (r.mission_id == "") && not i.mission_open)) [
    | inl e' ↦ rw (e, e') tt
    | inr e' ↦ elim (Bool-cases (one_changed (Cancel.cancellable_key q.delegation_id) rows)) [
      | inl one ↦ rw (e, e', one) tt
      | inr lost ↦
          rw (e, e', lost)
            (either_Latched (r.cancellation_in_progress && (r.cancel_requested && true))
              Cancel.cancellation_in_progress Cancel.dispatched_cas_lost)
    ]
  ]
]

-- What the watermark marks is in progress.
in_progress :
    (d : String) (stored r : Row) (rows : List Row)
    → select (id_key d) rows ≡ some r
    → IsKeyed rows
    → one_changed (Cancel.marking_key d stored) rows ≡ true
    → r.cancellation_in_progress ≡ true
in_progress d stored r rows read keyed one = ground (
  arith,
  one,
  count_found (id_key d) (Cancel.unmarked stored) rows (keyed d)
      ∙ ap (λ o. elim o [ none ↦ false | some x ↦ Cancel.unmarked stored x ]) read,
)

mark-Latched :
    (d : String) (i : Cancel.Input) (stored : Row) (prior : Bool) (rows : List Row)
    (found : Option Row)
    → select (id_key d) rows ≡ found
    → IsKeyed rows
    → Latched (Cancel.mark_found d i stored prior rows found).1
mark-Latched d i stored prior rows none read keyed = tt
mark-Latched d i stored prior rows (some r) read keyed =
    elim (Bool-cases (one_changed (Cancel.marking_key d stored) rows)) [
      | inl one ↦ rw (one) (in_progress d stored r rows read keyed one)
      | inr lost ↦ rw (lost) tt
    ]

call-Latched :
    (stored : Row) (prior : Bool) (reply : Option Cancel.RunnerReply)
    → stored.cancellation_in_progress ≡ true
    → Latched (Cancel.call_runner stored prior reply)
unfolding Cancel.call_runner
call-Latched stored prior none l = tt
call-Latched stored prior (some b) l = elim (Bool-cases b.success) [
  | inl e ↦ rw (e) l
  | inr e ↦ elim (Bool-cases (Cancel.is_unchanged b.changed)) [
    | inl e' ↦ rw (e, e') l
    | inr e' ↦ rw (e, e') tt
  ]
]

read-Latched : (q : Cancel.Request) (found : Option Row) → Latched (Cancel.read_found q found)
read-Latched q none = tt
read-Latched q (some r) = elim (Bool-cases (is_terminal r.state)) [
  | inl e ↦ rw (e) tt
  | inr e ↦ elim (Bool-cases q.dry) [
    | inl e' ↦ rw (e, e') tt
    | inr e' ↦ elim (Bool-cases (not q.confirm)) [
      | inl c ↦ rw (e, e', c) tt
      | inr c ↦ elim (Bool-cases (same_phase r.dispatch_phase Phase.reserved)) [
        | inl p ↦ rw (e, e', c, p) tt
        | inr p ↦ rw (e, e', c, p) tt
      ]
    ]
  ]
]

return-Latched :
    (d : String) (now : ℕ) (stored : Row) (prior : Bool) (rows : List Row) (found : Option Row)
    → Latched (Cancel.return_found d now stored prior rows found).1
return-Latched d now stored prior rows none = tt
return-Latched d now stored prior rows (some r) = tt

finish-Latched :
    (d : String) (i : Cancel.Input) (stored : Row) (s : String) (rows : List Row)
    (found : Option Row)
    → Latched (Cancel.finish_found d i stored s rows found).1
finish-Latched d i stored s rows none = tt
finish-Latched d i stored s rows (some r) = elim (Bool-cases (Cancel.same_authority r stored)) [
  | inl e ↦ rw (e) tt
  | inr e ↦ elim (Bool-cases (Cancel.can_promote (Cancel.is_confirmed i.texts s) r stored)) [
    | inl e' ↦ rw (e, e') tt
    | inr e' ↦ rw (e, e') tt
  ]
]

reread-Latched : (prior : Bool) (found : Option Row) → Latched (Cancel.reread_found prior found)
reread-Latched prior none = tt
reread-Latched prior (some r) = tt

pub cancel_step-Latched :
    (q : Cancel.Request) (i : Cancel.Input) (rows : List Row) (p : Cancel.Place)
    → IsKeyed rows
    → Latched p
    → Latched (Cancel.cancel_step q i rows p).1
unfolding Cancel.cancel_step Cancel.read Cancel.reread Cancel.cancel_reserved Cancel.claim
    Cancel.mark Cancel.return_latch Cancel.finish
cancel_step-Latched q i rows Cancel.reading keyed l =
    read-Latched q (select (id_key q.delegation_id) rows)
cancel_step-Latched q i rows Cancel.cancelling_reserved keyed l = tt
cancel_step-Latched q i rows Cancel.claiming keyed l =
    claim-Latched q i rows (select (id_key q.delegation_id) rows)
cancel_step-Latched q i rows (Cancel.rereading prior) keyed l =
    reread-Latched prior (select (id_key q.delegation_id) rows)
cancel_step-Latched q i rows (Cancel.marking stored prior) keyed l =
    mark-Latched q.delegation_id i stored prior rows (select (id_key q.delegation_id) rows) refl
      keyed
cancel_step-Latched q i rows (Cancel.calling stored prior) keyed l =
    call-Latched stored prior i.reply l
cancel_step-Latched q i rows (Cancel.returning stored prior) keyed l =
    return-Latched q.delegation_id i.now stored prior rows (select (id_key q.delegation_id) rows)
cancel_step-Latched q i rows (Cancel.finishing stored s) keyed l =
    finish-Latched q.delegation_id i stored s rows (select (id_key q.delegation_id) rows)
cancel_step-Latched q i rows (Cancel.done r) keyed l = tt
