-- ===== src/Mission/Attach/Reserve.antt =====
-- Repeated reservations of a delegation.
use hermes_gpt.Prelude.{
  ℕ, suc, String, Bool, true, false, Option, none, some, List, [], ◌∷◌, ◌++◌, ◌≡◌, refl, ap, inl,
  inr, arith, Bool-cases, eq_iff, eq_refl, ◌==◌, ◌&&◌, not,
}
use hermes_gpt.Prelude.Result.{Result, ok, err}
use hermes_gpt.Prelude.Rows.{select}
use hermes_gpt.Mission.Defs.{
  MissionRow, Attachment, MissionDb, delegation, attachment_key, bump, event,
}
use hermes_gpt.Plan.Ids.{characters}
use hermes_gpt.Mission.Lifecycle.Evolves.Decided.{get_row_sound}
use hermes_gpt.Mission.Guards.{get_row, get_row_again}
use hermes_gpt.Mission.Attach.Quiet.{reserve_write-Keeps}
use hermes_gpt.Mission.Attach.{clip, is_ref}
use hermes_gpt.Mission.Attach.Bridges.{
  reserved, reserve_write, reserve_over, reserve_in, reserve_delegation_attachment,
}

select_appended :
    (p : Attachment → Bool) (rows : List Attachment) (a : Attachment)
    → select p rows ≡ none
    → p a ≡ true
    → select p (rows ++ a ∷ []) ≡ some a
unfolding select
select_appended p [] a h key = ground (arith, key)
select_appended p (r ∷ rows) a h key = ground (arith, select_appended p rows a (ground arith) key)

clip_nonempty : (n : ℕ) (s : String) → (s == "") ≡ false → (clip (suc n) s == "") ≡ false
unfolding clip
clip_nonempty n String.[] h = absurd cc
clip_nonempty n (String.◌∷◌ c s) h = elim (Bool-cases (String.◌∷◌ c (clip n s) == "")) [
  | inl empty ↦
      (let same : String.◌∷◌ c (clip n s) ≡ "" =
          ground (arith, eq_iff (String.◌∷◌ c (clip n s)) "") in
        let codes : characters (String.◌∷◌ c (clip n s)) ≡ [] = ap characters same in absurd cc)
  | inr other ↦ other
]

module _ (db : MissionDb) (m ref evidence : String) where
  abbrev after : String → MissionDb
  after now = (reserve_delegation_attachment db m ref evidence now).1

  -- What a fresh reservation that succeeds has done.
  over_done :
      (now : String) (row : MissionRow) (old : Option Attachment)
      → old ≡ none
      → (reserve_over db m ref evidence now row old).0 ≡ true
      → (reserve_over db m ref evidence now row old).1 ≡ reserve_write db m ref evidence now
  unfolding reserve_over
  over_done now row (some old) absent done = absurd cc
  over_done now row none absent done = ground arith

  in_done :
      (now : String) (found : Result MissionRow)
      → select (attachment_key m delegation ref) db.attachments ≡ none
      → (reserve_in db m ref evidence now found).0 ≡ true
      → ((row : MissionRow) × (found ≡ ok row))
        × ((reserve_in db m ref evidence now found).1 ≡ reserve_write db m ref evidence now)
  unfolding reserve_in
  in_done now (err e) fresh done = absurd cc
  in_done now (ok row) fresh done = ((row, refl), over_done now row _ fresh done)

  written_row :
      (now : String) (row : MissionRow)
      → get_row db m ≡ ok row
      → (row' : MissionRow) × (get_row (reserve_write db m ref evidence now) m ≡ ok row')
  written_row now row h =
      let (row', there, _, _, _) =
        reserve_write-Keeps db m ref evidence now m row (get_row_sound db m h) in
      (row', get_row_again db (reserve_write db m ref evidence now) m h there)

  written_attachment :
      (now : String)
      → select (attachment_key m delegation ref) db.attachments ≡ none
      → select (attachment_key m delegation ref) (reserve_write db m ref evidence now).attachments
        ≡ some (reserved m ref evidence now)
  unfolding reserve_write event bump reserved
  written_attachment now fresh =
      select_appended (attachment_key m delegation ref) db.attachments (reserved m ref evidence now)
        fresh (ground (arith, eq_refl m, eq_refl ref))

  second :
      (now later : String) (row : MissionRow)
      → (is_ref ref && not (evidence == "")) ≡ true
      → get_row db m ≡ ok row
      → select (attachment_key m delegation ref) db.attachments ≡ none
      → reserve_delegation_attachment (reserve_write db m ref evidence now) m ref evidence later
        ≡ (clip 256 evidence == evidence, reserve_write db m ref evidence now)
  unfolding reserve_delegation_attachment reserve_in reserve_over reserved
  second now later row named got fresh =
      let (row', got') = written_row now row got in
      let nonempty : (clip 256 evidence == "") ≡ false =
        clip_nonempty 255 evidence (ground (arith, named)) in
      rw (named, got', written_attachment now fresh, nonempty) refl

  -- A fresh reservation that succeeds, made again with the same evidence, changes nothing, and
  -- succeeds exactly when the evidence is as stored, where it is cut at 256 characters.
  pub reserve_again :
      (now later : String)
      → select (attachment_key m delegation ref) db.attachments ≡ none
      → (reserve_delegation_attachment db m ref evidence now).0 ≡ true
      → reserve_delegation_attachment (after now) m ref evidence later
        ≡ (clip 256 evidence == evidence, after now)
  reserve_again now later fresh first = elim (Bool-cases (is_ref ref && not (evidence == ""))) [
    | inr unnamed ↦ absurd (unfold reserve_delegation_attachment in ground (arith, unnamed, first))
    | inl named ↦
        (let done : (reserve_in db m ref evidence now (get_row db m)).0 ≡ true =
            unfold reserve_delegation_attachment in ground (arith, named, first) in
          let ((row, got), wrote) = in_done now (get_row db m) fresh done in
          let e : after now ≡ reserve_write db m ref evidence now =
            unfold reserve_delegation_attachment in ground (arith, named, wrote) in
          rw e (second now later row named got fresh))
  ]
