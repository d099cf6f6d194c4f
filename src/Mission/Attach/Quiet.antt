-- ===== src/Mission/Attach/Quiet.antt =====
-- What the writes of attachments do to the missions: they move a version on, and keep every status.
use mathlib.Core.Option
use hermes_gpt.Prelude.{
  suc, String, Bool, true, false, Option, none, some, ◌≡◌, refl, ap, ◌∙◌, inl, inr, arith,
  Bool-cases, Option-cases, if◌then◌else◌, ◌==◌, ◌&&◌, not, ◌||◌, ◌⊎◌, List, [], ◌∷◌, ◌++◌, eq_iff,
}
use hermes_gpt.Prelude.Result.{Result, ok, err}
use hermes_gpt.Prelude.Rows.{select, select_sound, update, select-update}
use hermes_gpt.Policy.{OperatorPolicy, effective_dry_run}
use hermes_gpt.Mission.Defs.{
  AttachmentKind, AttachmentState, Attachment, MissionRow, MissionDb, mission_row, mission_key,
  bump, event, attachment_key, attached, delegation, is_terminal_status,
}
use hermes_gpt.Mission.Stores.{Stores}
use hermes_gpt.Mission.Guards.{get_row}
use hermes_gpt.Mission.Lifecycle.Evolves.{Evolves, Evolves-refl}
use hermes_gpt.Mission.Attach.{
  AttachRequest, attach, attach_decide, attach_finish, attach_write, is_ref, is_full, upsert,
  attachment_of, attachment_over,
}
use hermes_gpt.Mission.Attach.Bridges.{
  may_record, recorded, superseded, reserved, record_write, record_attachment_state,
  supersede_decide, supersede_finish, supersede_write, supersede_delegation_attachment, reserve_in,
  reserve_over, reserve_write, reserve_delegation_attachment,
}

-- Every mission is kept, with its status, and its version moves by one unless its row and its
-- attachments are left as they are.
abbrev pub Keeps : MissionDb → MissionDb → Type 0
Keeps db db' =
    (m : String) (r : MissionRow)
    → mission_row db m ≡ some r
    → (r' : MissionRow) × (mission_row db' m ≡ some r')
      × Evolves r r'
      × (r'.status ≡ r.status)
      × ((r'.version ≡ suc r.version)
          ⊎ ((r' ≡ r) × (attached m db'.attachments ≡ attached m db.attachments)))

Keeps-refl : (db : MissionDb) → Keeps db db
Keeps-refl db m r h = (r, h, Evolves-refl r, refl, inr (refl, refl))

-- Only the attachments of one mission are written.
abbrev Local : String → List Attachment → List Attachment → Type 0
Local m rows rows' = (n : String) → (m == n) ≡ false → attached n rows' ≡ attached n rows

Local-update :
    (m : String) (k : AttachmentKind) (ref : String) (f : Attachment → Attachment)
    → ((a : Attachment) → (f a).mission_id ≡ a.mission_id)
    → (rows : List Attachment) → Local m rows (update (attachment_key m k ref) f rows)
unfolding update attached
Local-update m k ref f same [] n other = refl
Local-update m k ref f same (a ∷ rows) n other = ground (
  arith,
  Local-update m k ref f same rows n other,
  same a,
  eq_iff a.mission_id m,
  eq_iff a.mission_id n,
  eq_iff m n,
)

Local-append :
    (m : String) (a : Attachment)
    → a.mission_id ≡ m
    → (rows : List Attachment) → Local m rows (rows ++ a ∷ [])
unfolding attached
Local-append m a own [] n other = ground (arith, own, other, eq_iff a.mission_id n, eq_iff m n)
Local-append m a own (b ∷ rows) n other = ground (arith, Local-append m a own rows n other)

bumped : String → MissionRow → MissionRow
bumped now r = record r { version = suc r.version; updated_at = now }

Evolves-bumped : (r : MissionRow) (now : String) → Evolves r (bumped now r)
unfolding bumped
Evolves-bumped r now = record {
  version_le = omega arith;
  unchanged = λ h. absurd (omega arith);
  final = λ _. refl;
  required = refl;
  lawful = λ h. h;
}

bump-Keeps :
    (db db' : MissionDb) (m now : String)
    → db'.missions ≡ (bump m now db).missions
    → Local m db.attachments db'.attachments
    → Keeps db db'
unfolding bump bumped
bump-Keeps db db' m now e others n r h =
    let moved : mission_row db' n ≡ some (if mission_key m r then bumped now r else r) = rw e (
      select-update (mission_key n) (mission_key m) (bumped now) (λ x. refl) db.missions
      ∙ ap (Option.map _) h) in
    elim (Bool-cases (mission_key m r)) [
      | inl hit ↦ (bumped now r, ground (arith, moved), Evolves-bumped r now, refl, inl refl)
      | inr miss ↦ (
        r,
        ground (arith, moved),
        Evolves-refl r,
        refl,
        inr (
          refl,
          others n (
              ground (
                arith,
                select_sound (mission_key n) db.missions r h,
                miss,
                eq_iff r.mission_id n,
                eq_iff r.mission_id m,
                eq_iff m n,
              )),
        ),
      )
    ]

upsert-Local :
    (q : AttachRequest) (k : AttachmentKind) (s : AttachmentState) (now : String)
    (rows : List Attachment)
    → Local q.mission_id rows (
        upsert
          (attachment_key q.mission_id k q.ref)
          (attachment_over q s now)
          (attachment_of q k s now)
          rows)
unfolding upsert attachment_over attachment_of
upsert-Local q k s now rows =
    elim (Option-cases (select (attachment_key q.mission_id k q.ref) rows)) [
      | inl absent ↦
          rw (upsert, absent) (Local-append q.mission_id (attachment_of q k s now) refl rows)
      | inr (a, there) ↦
          rw (upsert, there)
            (Local-update q.mission_id k q.ref (attachment_over q s now) (λ b. refl) rows)
    ]

attach_finish-Keeps :
    (p : OperatorPolicy) (db : MissionDb) (q : AttachRequest) (now : String)
    (c : Result (AttachmentKind × AttachmentState))
    → Keeps db (attach_finish p db q now c).1
unfolding attach_finish attach_write event bump
attach_finish-Keeps p db q now (err e) = Keeps-refl db
attach_finish-Keeps p db q now (ok (k, s)) = elim (Bool-cases (effective_dry_run p q.dry_run)) [
  | inl dry ↦ rw dry (Keeps-refl db)
  | inr wet ↦ rw wet (
      bump-Keeps db (attach_write q k s now db) q.mission_id now refl
        (upsert-Local q k s now db.attachments))
]

pub attach-Keeps :
    (p : OperatorPolicy) (db : MissionDb) (q : AttachRequest) (now : String)
    → Keeps db (attach p db q now).1
unfolding attach
attach-Keeps p db q now = attach_finish-Keeps p db q now (attach_decide p db q)

pub record_attachment_state-Keeps :
    (db : MissionDb) (m : String) (k : AttachmentKind) (ref : String) (s : AttachmentState)
    (evidence : String) (verified : Bool) (now : String)
    → Keeps db (record_attachment_state db m k ref s evidence verified now).1
unfolding record_attachment_state record_write recorded event bump
record_attachment_state-Keeps db m k ref s evidence verified now =
    elim (Bool-cases (may_record k ref s evidence verified)) [
      | inr refused ↦ rw refused (Keeps-refl db)
      | inl allowed ↦ elim (Option-cases (select (attachment_key m k ref) db.attachments)) [
        | inl absent ↦ rw (allowed, absent) (Keeps-refl db)
        | inr (a, there) ↦
            rw (allowed, there)
              (bump-Keeps db (record_write db m k ref s evidence verified now) m now refl (
                Local-update m k ref (recorded s evidence verified now) (λ b. refl) db.attachments))
      ]
    ]

supersede_finish-Keeps :
    (db : MissionDb) (m ref successor now : String) (decision : Option Bool)
    → Keeps db (supersede_finish db m ref successor now decision).1
unfolding supersede_finish supersede_write superseded event bump
supersede_finish-Keeps db m ref successor now none = Keeps-refl db
supersede_finish-Keeps db m ref successor now (some true) =
    bump-Keeps db (supersede_write db m ref successor now) m now refl
      (Local-update m delegation ref (superseded successor now) (λ b. refl) db.attachments)
supersede_finish-Keeps db m ref successor now (some false) = Keeps-refl db

pub supersede-Keeps :
    (s : Stores) (db : MissionDb) (m ref successor now : String)
    → Keeps db (supersede_delegation_attachment s db m ref successor now).1
unfolding supersede_delegation_attachment
supersede-Keeps s db m ref successor now =
    supersede_finish-Keeps db m ref successor now (supersede_decide s db m ref successor)

pub reserve_write-Keeps :
    (db : MissionDb) (m ref evidence now : String) → Keeps db (reserve_write db m ref evidence now)
unfolding reserve_write reserved event bump
reserve_write-Keeps db m ref evidence now =
    bump-Keeps db (reserve_write db m ref evidence now) m now refl
      (Local-append m (reserved m ref evidence now) refl db.attachments)

reserve_over-Keeps :
    (db : MissionDb) (m ref evidence now : String) (row : MissionRow) (old : Option Attachment)
    → Keeps db (reserve_over db m ref evidence now row old).1
unfolding reserve_over
reserve_over-Keeps db m ref evidence now row (some old) = Keeps-refl db
reserve_over-Keeps db m ref evidence now row none =
    elim (Bool-cases (is_terminal_status row.status || is_full db m)) [
      | inl refused ↦ rw refused (Keeps-refl db)
      | inr free ↦ rw free (reserve_write-Keeps db m ref evidence now)
    ]

reserve_in-Keeps :
    (db : MissionDb) (m ref evidence now : String) (found : Result MissionRow)
    → Keeps db (reserve_in db m ref evidence now found).1
unfolding reserve_in
reserve_in-Keeps db m ref evidence now (err e) = Keeps-refl db
reserve_in-Keeps db m ref evidence now (ok row) = reserve_over-Keeps db m ref evidence now row _

pub reserve-Keeps :
    (db : MissionDb) (m ref evidence now : String)
    → Keeps db (reserve_delegation_attachment db m ref evidence now).1
unfolding reserve_delegation_attachment
reserve-Keeps db m ref evidence now = elim (Bool-cases (is_ref ref && not (evidence == ""))) [
  | inl named ↦ rw named (reserve_in-Keeps db m ref evidence now (get_row db m))
  | inr unnamed ↦ rw unnamed (Keeps-refl db)
]

-- The four calls that write attachments.
pub data AttachmentCall : Type 0 where
  attaching : OperatorPolicy → AttachRequest → String → AttachmentCall
  recording :
      String → AttachmentKind → String → AttachmentState → String → Bool → String → AttachmentCall
  superseding : Stores → String → String → String → String → AttachmentCall
  reserving : String → String → String → String → AttachmentCall

abbrev pub attachment_call : MissionDb → AttachmentCall → MissionDb
attachment_call db (attaching p q now) = (attach p db q now).1
attachment_call db (recording m k ref s evidence verified now) =
    (record_attachment_state db m k ref s evidence verified now).1
attachment_call db (superseding s m ref successor now) =
    (supersede_delegation_attachment s db m ref successor now).1
attachment_call db (reserving m ref evidence now) =
    (reserve_delegation_attachment db m ref evidence now).1

-- No call that writes attachments loses a mission or changes its status, and each moves the version
-- of a mission by one unless it leaves the mission's row and its attachments as they are.
pub attachment_call-Keeps : (db : MissionDb) (c : AttachmentCall) → Keeps db (attachment_call db c)
attachment_call-Keeps db (attaching p q now) = attach-Keeps p db q now
attachment_call-Keeps db (recording m k ref s evidence verified now) =
    record_attachment_state-Keeps db m k ref s evidence verified now
attachment_call-Keeps db (superseding s m ref successor now) =
    supersede-Keeps s db m ref successor now
attachment_call-Keeps db (reserving m ref evidence now) = reserve-Keeps db m ref evidence now
