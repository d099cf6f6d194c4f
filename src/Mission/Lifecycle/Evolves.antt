-- ===== src/Mission/Lifecycle/Evolves.antt =====
-- How the row of a mission may change, and that a permitted decision changes it so.
pub mod Decided
use mathlib.Core.Option
use mathlib.Core.Path.{subst}
use hermes_gpt.Prelude.{
  ◌≤◌, String, true, false, some, List, ◌||◌, ◌⊎◌, ◌≡◌, refl, sym, ap, ◌∙◌, inl, inr, arith,
  Bool-cases, eq_iff, if◌then◌else◌,
}
use hermes_gpt.Prelude.Result.{Result, ok, err}
use hermes_gpt.Prelude.Rows.{update, select_sound, select-update}
use hermes_gpt.Policy.{OperatorPolicy, effective_dry_run}
use hermes_gpt.Mission.Defs.{
  Status, is_terminal_status, MissionRow, MissionDb, mission_row, mission_key, event,
}
use hermes_gpt.Mission.Guards.{World, completion_guard, get_row, same_authority}
use hermes_gpt.Mission.Observe.{Observed, approvable}
use hermes_gpt.Mission.Lifecycle.{Request, Decision, observed_in, decided, commit, conclude}

-- A completed mission that asks for a final approval has one.
abbrev pub Lawful : MissionRow → Type 0
Lawful r = r.status ≡ Status.completed → r.final_approval_required ≡ true → r.approved ≡ true

-- Every change moves the version on, a terminal status stays, and so does the need of an approval.
pub record Evolves (r r' : MissionRow) : Type 0 where
  pub version_le : r.version ≤ r'.version
  pub unchanged : r'.version ≡ r.version → r' ≡ r
  pub final : is_terminal_status r.status ≡ true → r'.status ≡ r.status
  pub required : r'.final_approval_required ≡ r.final_approval_required
  pub lawful : Lawful r → Lawful r'

-- The same for every mission of a database.
abbrev pub Follows : MissionDb → MissionDb → Type 0
Follows db db' =
    (m : String) (r : MissionRow)
    → mission_row db m ≡ some r
    → (r' : MissionRow) × (mission_row db' m ≡ some r') × Evolves r r'

some_injective : {r s : MissionRow} → some r ≡ some s → r ≡ s
some_injective h = ground arith

pub Evolves-refl : (r : MissionRow) → Evolves r r
Evolves-refl r = record {
  version_le = omega arith;
  unchanged = λ h. refl;
  final = λ h. refl;
  required = refl;
  lawful = λ h. h;
}

pub Evolves-trans : {r s t : MissionRow} → Evolves r s → Evolves s t → Evolves r t
Evolves-trans a b = record {
  version_le = omega (arith, a.version_le, b.version_le);
  unchanged = λ h. ground (arith, a.version_le, b.version_le, a.unchanged, b.unchanged);
  final = λ h. ground (arith, a.final, b.final);
  required = ground (arith, a.required, b.required);
  lawful = λ h. b.lawful (a.lawful h);
}

pub Follows-refl : (db : MissionDb) → Follows db db
Follows-refl db m r h = (r, h, Evolves-refl r)

pub Follows-trans : (a b c : MissionDb) → Follows a b → Follows b c → Follows a c
Follows-trans a b c f g m r h =
    let (s, hs, es) = f m r h in let (t, ht, et) = g m s hs in (t, ht, Evolves-trans es et)
