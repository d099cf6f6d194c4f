-- ===== src/Mission/Attach.antt =====
-- operator_mission_runtime.py: hermes_mission_attach, and the internal bridges that write
-- attachments: record_attachment_state, supersede_delegation_attachment and
-- reserve_delegation_attachment.
pub mod Bridges
pub mod Quiet
pub mod Reserve
use Prim.Native.Char.{code}
use hermes_gpt.Prelude.{
  ℕ, zero, suc, ◌+◌, String, Bool, true, false, Option, none, some, List, [], ◌∷◌, ◌++◌, ◌==◌, ◌&&◌,
  ◌||◌, not, all, eqb, leb, length, if◌then◌else◌,
}
use hermes_gpt.Prelude.Result.{Result, ok, err, permission_error, value_error, ◌>>=◌, ◌>>◌, require}
use hermes_gpt.Prelude.Rows.{select, update}
use hermes_gpt.Policy.{
  OperatorPolicy, workspace, require_level, require_mutation, effective_dry_run,
}
use hermes_gpt.Plan.Ids.{characters, alphanumeric, dash}
use hermes_gpt.Mission.Defs.{
  is_terminal_status, AttachmentKind, same_kind, workflow, delegation, AttachmentState,
  same_attachment_state, Relationship, superseded_by, plain, Attachment, MissionRow, MissionDb,
  attachment_key, attached, bump, event,
}
use hermes_gpt.Mission.Stores.{Stores, delegation_state}
use hermes_gpt.Mission.Observe.{by_ref, resolve_successor, has_ended_badly}
use hermes_gpt.Mission.Guards.{get_row}

-- a character of REF_RE: also ".", ":", "/", "@" and "+"
ref_code : ℕ → Bool
ref_code c =
    alphanumeric c
    || (dash c || (eqb c b'.' || (eqb c b':' || (eqb c b'/' || (eqb c b'@' || eqb c b'+')))))

ref_codes : List ℕ → Bool
unfolding ref_code
ref_codes [] = false
ref_codes (c ∷ cs) = alphanumeric c && (leb (length cs) 255 && all ref_code cs)

-- REF_RE
unfoldable pub is_ref : String → Bool
unfolding ref_codes
is_ref s = ref_codes (characters s)

workflow_ref_codes : List ℕ → Bool
workflow_ref_codes (a ∷ b ∷ d ∷ c ∷ cs) =
    eqb a b's'
    && (eqb b b'w'
        && (eqb d b'-'
            && (alphanumeric c && (leb (length cs) 63 && all (λ x. alphanumeric x || dash x) cs))))
workflow_ref_codes _ = false

-- WORKFLOW_REF_RE
unfoldable pub is_workflow_ref : String → Bool
unfolding workflow_ref_codes
is_workflow_ref s = workflow_ref_codes (characters s)

-- `text[:n]`
unfoldable pub clip : ℕ → String → String
clip zero s = ""
clip (suc n) String.[] = String.[]
clip (suc n) (String.◌∷◌ c s) = String.◌∷◌ c (clip n s)

text_length : String → ℕ
text_length s = length (characters s)

-- the length of the column's text; SUPERSEDED_PREFIX has 14 characters
relationship_length : Relationship → ℕ
unfolding text_length
relationship_length (superseded_by s) = 14 + text_length s
relationship_length (plain s) = text_length s

pub is_marker : Relationship → Bool
is_marker (superseded_by _) = true
is_marker (plain _) = false

-- `relationship == marker`
pub marks : Relationship → String → Bool
marks (superseded_by s) successor = s == successor
marks (plain _) successor = false

-- The arguments of hermes_mission_attach, after `.strip()`; `none` stands for a kind or a state
-- that is not in its list.
pub record AttachRequest : Type 0 where
  pub mission_id : String
  pub kind : Option AttachmentKind
  pub ref : String
  pub relationship : Relationship
  pub state : Option AttachmentState
  pub evidence_ref : String
  pub confirm : Bool
  pub dry_run : Bool

listed {ℓ} : {A : Type ℓ} → Option A → Result A
listed none = err value_error
listed (some a) = ok a

-- the UPDATE or INSERT of one attachment
pub upsert :
    (Attachment → Bool) → (Attachment → Attachment) → Attachment → List Attachment → List Attachment
upsert key f a rows = elim (select key rows) [ none ↦ rows ++ a ∷ [] | some _ ↦ update key f rows ]

-- `count >= MAX_ATTACHMENTS`
pub is_full : MissionDb → String → Bool
is_full db m = leb 512 (length (attached m db.attachments))

pub attachment_of : AttachRequest → AttachmentKind → AttachmentState → String → Attachment
attachment_of q k s now = record {
  mission_id = q.mission_id;
  kind = k;
  ref = q.ref;
  relationship = q.relationship;
  state = s;
  evidence_ref = q.evidence_ref;
  verified = false;
  created_at = now;
  updated_at = now;
}

pub attachment_over : AttachRequest → AttachmentState → String → Attachment → Attachment
attachment_over q s now a = record a {
  relationship = q.relationship;
  state = s;
  evidence_ref = q.evidence_ref;
  verified = false;
  updated_at = now;
}

-- the nested validate
attach_validate : MissionDb → String → AttachmentKind → String → Result (Unit {0})
unfolding is_full
attach_validate db m k ref = do
  row ← get_row db m
  require (not (is_terminal_status row.status)) value_error
  require
      (not (is_full db m)
        || elim (select (attachment_key m k ref) db.attachments) [ none ↦ false | some _ ↦ true ])
      value_error

unfoldable pub attach_decide :
    OperatorPolicy → MissionDb → AttachRequest → Result (AttachmentKind × AttachmentState)
unfolding listed relationship_length text_length attach_validate is_marker
attach_decide p db q = do
  require_level p workspace
  require_mutation p q.dry_run
  k ← listed q.kind
  require (is_ref q.ref) value_error
  require (not (same_kind k workflow) || is_workflow_ref q.ref) value_error
  require
      (leb 1 (relationship_length q.relationship) && leb (relationship_length q.relationship) 64)
      value_error
  require (not (is_marker q.relationship)) permission_error
  s ← listed q.state
  require (not (same_attachment_state s AttachmentState.succeeded)) permission_error
  require (not (same_attachment_state s AttachmentState.cancelled)) permission_error
  require (leb (text_length q.evidence_ref) 256) value_error
  require (effective_dry_run p q.dry_run || q.confirm) permission_error
  attach_validate db q.mission_id k q.ref
  ok (k, s)

attach_write : AttachRequest → AttachmentKind → AttachmentState → String → MissionDb → MissionDb
unfolding upsert attachment_of attachment_over
attach_write q k s now db = event q.mission_id "mission.attachment" none none now (
    bump q.mission_id now (record db {
      attachments =
          upsert (attachment_key q.mission_id k q.ref) (attachment_over q s now)
            (attachment_of q k s now) db.attachments;
    }))

unfoldable pub attach_finish :
    OperatorPolicy
    → MissionDb
    → AttachRequest
    → String
    → Result (AttachmentKind × AttachmentState)
    → Result (Unit {0}) × MissionDb
unfolding attach_write
attach_finish p db q now (err e) = (err e, db)
attach_finish p db q now (ok (k, s)) =
    if effective_dry_run p q.dry_run then (ok tt, db) else (ok tt, attach_write q k s now db)

-- hermes_mission_attach
unfoldable pub attach :
    OperatorPolicy → MissionDb → AttachRequest → String → Result (Unit {0}) × MissionDb
attach p db q now = attach_finish p db q now (attach_decide p db q)
