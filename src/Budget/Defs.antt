-- ===== src/Budget/Defs.antt =====
-- operator_mission_budget.py: the tables budget_accounts and budget_events, the policy of an
-- envelope, and _envelope_status.
use hermes_gpt.Prelude.{
  ℕ, String, Bool, true, false, Option, none, some, List, [], ◌∷◌, ◌==◌, ◌&&◌, ◌||◌, leb, eqb, all,
  length, ◌≡◌, arith, if◌then◌else◌,
}
use hermes_gpt.Prelude.Result.{Result, ok, err, value_error, lookup_error, ◌>>◌, require}
use hermes_gpt.Prelude.Rows.{select}
use hermes_gpt.Plan.Ids.{is_mission_id, characters, lower, digit, dash}

abbrev pub max_spend : ℕ
max_spend = 1000000000000

abbrev pub max_quota : ℕ
max_quota = 1000000000000

abbrev pub max_amount : ℕ
max_amount = 1000000000000

-- A policy document; its texts after `.strip().lower()`, with their defaults.
pub record BudgetPolicy : Type 0 where
  pub schema : String
  pub unit : String
  pub hard_block_enabled : Bool
  pub pause_on_cross : Bool
  pub breaker_signal : String
  pub authorization_class : String

signal_codes : List ℕ → Bool
signal_codes [] = false
signal_codes (c ∷ cs) =
    lower c
    && (leb 2 (length cs) && (leb (length cs) 63 && all (λ d. lower d || (digit d || dash d)) cs))

-- SIGNAL_RE
unfoldable pub is_signal : String → Bool
unfolding signal_codes
is_signal s = signal_codes (characters s)

-- UNITS
unfoldable pub is_unit : String → Bool
is_unit u = u == "tokens" || (u == "minutes" || u == "usd")

-- AUTH_CLASSES
unfoldable pub is_auth_class : String → Bool
is_auth_class c = c == "read_only" || (c == "reversible_write" || c == "high_impact")

-- _clean_policy, without the search for secrets
unfoldable pub clean_policy : BudgetPolicy → Result (Unit {0})
unfolding is_unit is_auth_class
clean_policy b = do
  require (b.schema == "hermes.budget-policy/v1") value_error
  require (is_unit b.unit) value_error
  require (is_signal b.breaker_signal) value_error
  require (is_auth_class b.authorization_class) value_error

-- _clean_num of a whole number: the minimum 0.000001 of a quota is 1.
unfoldable pub clean_num : ℕ → ℕ → ℕ → Result ℕ
clean_num minimum maximum n = require (leb minimum n && leb n maximum) value_error >> ok n

-- The statuses of an envelope.
pub data EnvelopeStatus : Type 0 where
  within crossing invalid : EnvelopeStatus

-- _envelope_status
unfoldable pub envelope_status : ℕ → ℕ → EnvelopeStatus
envelope_status spend quota =
    if eqb quota 0 then invalid else if leb quota spend then crossing else within

-- `crosses_envelope`
unfoldable pub crosses : EnvelopeStatus → Bool
crosses crossing = true
crosses _ = false

-- A row of budget_accounts.
pub record Account : Type 0 where
  pub mission_id : String
  pub quota : ℕ
  pub spend : ℕ
  pub policy : BudgetPolicy
  pub created_at : String
  pub updated_at : String

-- `would_pause` of _would_block
unfoldable pub would_pause : EnvelopeStatus → BudgetPolicy → Bool
would_pause status b = crosses status && (b.hard_block_enabled && b.pause_on_cross)

-- The column event_type.
pub data EventType : Type 0 where
  spend_record break : EventType

unfoldable pub is_break : EventType → Bool
is_break break = true
is_break spend_record = false

-- A row of budget_events.
pub record BudgetEvent : Type 0 where
  pub mission_id : String
  pub amount : ℕ
  pub spend_after : ℕ
  pub quota : ℕ
  pub status : EnvelopeStatus
  pub hard_block : Bool
  pub event_type : EventType
  pub ref : String
  pub created_at : String

pub record BudgetDb : Type 0 where
  pub budget_accounts : List Account
  pub budget_events : List BudgetEvent

-- WHERE mission_id=?
abbrev pub account_key : String → Account → Bool
account_key m a = a.mission_id == m

account_found : Option Account → Result Account
account_found none = err lookup_error
account_found (some a) = ok a

-- _get_account_row
unfoldable pub get_account_row : BudgetDb → String → Result Account
unfolding account_found
get_account_row db m = do
  require (is_mission_id m) value_error
  account_found (select (account_key m) db.budget_accounts)

pub get_account_row_sound :
    (db : BudgetDb) (m : String) {a : Account}
    → get_account_row db m ≡ ok a
    → select (account_key m) db.budget_accounts ≡ some a
unfolding get_account_row account_found
get_account_row_sound db m h = ground arith
