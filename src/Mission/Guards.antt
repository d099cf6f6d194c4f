-- ===== src/Mission/Guards.antt =====
-- operator_mission_runtime.py: _get_row, _completion_guard and _cancellation_guard, over the guards
-- of operator_delegations.py. A guard holds the write lock of the delegations until the mission is
-- committed, so the rows that it compares are those at the commit.
use hermes_gpt.Prelude.{
  ℕ, String, Bool, Option, none, some, List, [], ◌∷◌, ◌==◌, ◌&&◌, ◌||◌, not, eqb, ◌≡◌, arith,
}
use hermes_gpt.Prelude.Result.{Result, ok, err, value_error, lookup_error, ◌>>=◌, ◌>>◌, require}
use hermes_gpt.Plan.Ids.{is_mission_id}
use hermes_gpt.Mission.Defs.{MissionRow, MissionDb, mission_row}
use hermes_gpt.Mission.Stores.{Stores}
use hermes_gpt.Mission.Observe.{Observed, snapshots}

-- A row of the delegation store, as the guards read it.
pub record DelegationRow : Type 0 where
  pub mission_id : String
  pub authority_version : ℕ
  pub cancel_requested : Bool
  pub cancellation_in_progress : Bool
  pub state : String

-- What happens around one call of a handler: what its reads of the other stores find, and what
-- other writers do to missions.db between its first read and its write transaction.
pub record World : Type 0 where
  pub stores : ℕ → Stores
  -- the second observation of a transition to completed
  pub stores_again : ℕ → Stores
  -- the read of the recoveries
  pub stores_late : Stores
  -- the delegation rows under the guard's lock
  pub delegations : String → Option DelegationRow
  pub others : MissionDb → MissionDb

found : Option MissionRow → Result MissionRow
found none = err lookup_error
found (some r) = ok r

-- _get_row
unfoldable pub get_row : MissionDb → String → Result MissionRow
unfolding found
get_row db m = do require (is_mission_id m) value_error; found (mission_row db m)

-- The identifier that was good for one read is good for another.
pub get_row_again :
    (db db' : MissionDb) (m : String) {r r' : MissionRow}
    → get_row db m ≡ ok r
    → mission_row db' m ≡ some r'
    → get_row db' m ≡ ok r'
unfolding get_row found
get_row_again db db' m h there = rw there (ground (arith, h))

-- the test of mission_completion_guard
unfoldable pub may_complete : String → ℕ → DelegationRow → Bool
may_complete m v row =
    row.mission_id == m
    && (eqb row.authority_version v && not (row.cancel_requested || row.cancellation_in_progress))

-- TERMINAL_STATES of operator_delegations.py
is_ended : String → Bool
is_ended s = s == "succeeded" || (s == "failed" || s == "cancelled")

-- the test of mission_cancellation_guard
unfoldable pub may_cancel : String → ℕ → DelegationRow → Bool
unfolding is_ended
may_cancel m v row =
    row.mission_id == m
    && (eqb row.authority_version v
        && (is_ended row.state
            && (not row.cancellation_in_progress
                && (not row.cancel_requested || row.state == "cancelled"))))

-- the loop of a guard over the snapshots
unfoldable pub guard_rows :
    (ℕ → DelegationRow → Bool)
    → (String → Option DelegationRow)
    → List (String × ℕ)
    → Result (Unit {0})
guard_rows test rows [] = ok tt
guard_rows test rows ((ref, v) ∷ pairs) =
    let rest = guard_rows test rows pairs in
    elim (rows ref) [
      | none ↦ err lookup_error
      | some row ↦ require (test v row) value_error >> rest
    ]

-- _completion_guard with mission_completion_guard
unfoldable pub completion_guard :
    (String → Option DelegationRow) → String → List Observed → Result (Unit {0})
completion_guard rows m items = do pairs ← snapshots items; guard_rows (may_complete m) rows pairs

-- _cancellation_guard with mission_cancellation_guard
unfoldable pub cancellation_guard :
    (String → Option DelegationRow) → String → List Observed → Result (Unit {0})
cancellation_guard rows m items = do pairs ← snapshots items; guard_rows (may_cancel m) rows pairs

-- `int(current_row["version"]) != int(mission["version"])` against the row at the commit
unfoldable pub same_authority : MissionDb → String → MissionRow → Result MissionRow
unfolding get_row
same_authority db m seen = do
  current ← get_row db m
  require (eqb current.version seen.version) value_error
  ok current
