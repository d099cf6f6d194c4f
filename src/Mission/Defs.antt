-- ===== src/Mission/Defs.antt =====
-- operator_mission_runtime.py: the statuses and their transitions, and the tables missions,
-- attachments and mission_events.
use hermes_gpt.Prelude.{
  ℕ, suc, String, Bool, true, false, Option, List, [], ◌∷◌, ◌++◌, ◌==◌, ◌&&◌, eqb, ◌≡◌, refl, sym,
  ap, ◌∙◌, arith, if◌then◌else◌,
}
use hermes_gpt.Prelude.Rows.{select, update}

-- STATUSES
pub data Status : Type 0 where
  draft running paused blocked awaiting_approval completed failed cancelled : Status

-- The status's place in STATUSES, by which two statuses are compared.
abbrev pub status_position : Status → ℕ
status_position draft = 0
status_position running = 1
status_position paused = 2
status_position blocked = 3
status_position awaiting_approval = 4
status_position completed = 5
status_position failed = 6
status_position cancelled = 7

abbrev pub same_status : Status → Status → Bool
same_status a b = eqb (status_position a) (status_position b)

status_at : ℕ → Status
status_at n =
    if eqb n 0
    then draft
    else if eqb n 1
    then running
    else if eqb n 2
    then paused
    else if eqb n 3
    then blocked
    else if eqb n 4
    then awaiting_approval
    else if eqb n 5
    then completed
    else if eqb n 6
    then failed
    else cancelled

status_at-position : (s : Status) → status_at (status_position s) ≡ s
unfolding status_at
status_at-position draft = refl
status_at-position running = refl
status_at-position paused = refl
status_at-position blocked = refl
status_at-position awaiting_approval = refl
status_at-position completed = refl
status_at-position failed = refl
status_at-position cancelled = refl

pub same_status_sound : (a b : Status) → same_status a b ≡ true → a ≡ b
same_status_sound a b h =
    let e : status_position a ≡ status_position b = ground arith in
    sym (status_at-position a) ∙ ap status_at e ∙ status_at-position b

-- TERMINAL_STATUSES
unfoldable pub is_terminal_status : Status → Bool
is_terminal_status completed = true
is_terminal_status failed = true
is_terminal_status cancelled = true
is_terminal_status _ = false

-- MISSION_TRANSITIONS
unfoldable pub mission_transitions : Status → Status → Bool
mission_transitions draft running = true
mission_transitions draft paused = true
mission_transitions draft blocked = true
mission_transitions draft failed = true
mission_transitions draft cancelled = true
mission_transitions running paused = true
mission_transitions running blocked = true
mission_transitions running failed = true
mission_transitions running cancelled = true
mission_transitions paused running = true
mission_transitions paused blocked = true
mission_transitions paused failed = true
mission_transitions paused cancelled = true
mission_transitions blocked running = true
mission_transitions blocked paused = true
mission_transitions blocked failed = true
mission_transitions blocked cancelled = true
mission_transitions awaiting_approval running = true
mission_transitions awaiting_approval blocked = true
mission_transitions awaiting_approval failed = true
mission_transitions awaiting_approval cancelled = true
mission_transitions _ _ = false

-- ATTACHMENT_KINDS
pub data AttachmentKind : Type 0 where
  workflow contract delegation evidence artifact : AttachmentKind

abbrev pub kind_position : AttachmentKind → ℕ
kind_position workflow = 0
kind_position contract = 1
kind_position delegation = 2
kind_position evidence = 3
kind_position artifact = 4

abbrev pub same_kind : AttachmentKind → AttachmentKind → Bool
same_kind a b = eqb (kind_position a) (kind_position b)

-- ATTACHMENT_STATES, with the position by which two are compared.
pub data AttachmentState : Type 0 where
  unknown pending running blocked succeeded failed cancelled : AttachmentState

abbrev pub state_position : AttachmentState → ℕ
state_position unknown = 0
state_position pending = 1
state_position running = 2
state_position blocked = 3
state_position succeeded = 4
state_position failed = 5
state_position cancelled = 6

abbrev pub same_attachment_state : AttachmentState → AttachmentState → Bool
same_attachment_state a b = eqb (state_position a) (state_position b)

-- The column `relationship`: a text that starts with SUPERSEDED_PREFIX, and what follows it, or
-- any other text.
pub data Relationship : Type 0 where
  superseded_by : String → Relationship
  plain : String → Relationship

-- A row of missions. Of spec_json only final_approval_required is read by the lifecycle, of
-- approval_json only `approved`.
pub record MissionRow : Type 0 where
  pub mission_id : String
  pub final_approval_required : Bool
  pub status : Status
  pub version : ℕ
  pub approved : Bool
  pub updated_at : String

pub record Attachment : Type 0 where
  pub mission_id : String
  pub kind : AttachmentKind
  pub ref : String
  pub relationship : Relationship
  pub state : AttachmentState
  pub evidence_ref : String
  pub verified : Bool
  pub created_at : String
  pub updated_at : String

-- A row of mission_events, without its digests.
pub record MissionEvent : Type 0 where
  pub mission_id : String
  pub event_type : String
  pub from_status : Option Status
  pub to_status : Option Status
  pub created_at : String

pub record MissionDb : Type 0 where
  pub missions : List MissionRow
  pub attachments : List Attachment
  pub mission_events : List MissionEvent

-- `WHERE mission_id=?`
abbrev pub mission_key : String → MissionRow → Bool
mission_key m r = r.mission_id == m

-- `WHERE mission_id=? AND kind=? AND ref=?`
abbrev pub attachment_key : String → AttachmentKind → String → Attachment → Bool
attachment_key m k ref a = a.mission_id == m && (same_kind a.kind k && a.ref == ref)

abbrev pub mission_row : MissionDb → String → Option MissionRow
mission_row db m = select (mission_key m) db.missions

-- The attachments of a mission, in the order of the table.
unfoldable pub attached : String → List Attachment → List Attachment
attached m [] = []
attached m (a ∷ rows) = let rest = attached m rows in if a.mission_id == m then a ∷ rest else rest

-- `UPDATE missions SET version=version+1,updated_at=? WHERE mission_id=?`
unfoldable pub bump : String → String → MissionDb → MissionDb
bump m now db = record db {
  missions =
      update (mission_key m) (λ r. record r { version = suc r.version; updated_at = now })
        db.missions;
}

-- _event
unfoldable pub event :
    String → String → Option Status → Option Status → String → MissionDb → MissionDb
event m event_type from to now db = record db {
  mission_events =
      db.mission_events
      ++ record {
        mission_id = m;
        event_type = event_type;
        from_status = from;
        to_status = to;
        created_at = now;
      }
        ∷ [];
}
