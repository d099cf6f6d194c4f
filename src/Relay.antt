-- ===== src/Relay.antt =====
-- operator_attention_delivery.py: the state of the attention relay, its retention and back-off. A
-- time is a whole number; a time that a stored text does not write is `none`, before all others.
pub mod Inbox
pub mod Target
pub mod Run
pub mod Entries
pub mod Accounts
pub mod Once
pub mod Bounds
pub mod Retention
use hermes_gpt.Prelude.{
  ℕ, zero, suc, ◌+◌, ◌-◌, ◌*◌, String, Bool, true, false, Option, none, some, List, [], ◌∷◌, ◌==◌,
  ltb, leb, length, map, if◌then◌else◌,
}
use hermes_gpt.Prelude.Rows.{select}

-- RETENTION_SECONDS, RETENTION_MAX_PER_TARGET, BACKOFF_BASE_SECONDS and BACKOFF_CAP_SECONDS
abbrev pub retention_seconds : ℕ
retention_seconds = 14 * 24 * 3600

abbrev pub retention_max_per_target : ℕ
retention_max_per_target = 2000

abbrev pub backoff_base_seconds : ℕ
backoff_base_seconds = 30

abbrev pub backoff_cap_seconds : ℕ
backoff_cap_seconds = 3600

-- A record of `delivered`: an item's id and when it was sent.
pub record Delivery : Type 0 where
  pub item_id : String
  pub sent_at : Option ℕ

-- A code and when it was recorded.
pub record Report : Type 0 where
  pub code : String
  pub at : ℕ

-- What the state keeps for a target.
pub record Entry : Type 0 where
  pub delivered : List Delivery
  pub last_success_at : Option ℕ
  pub last_warning : Option Report
  pub last_error : Option Report
  pub failure_count : ℕ
  pub next_attempt_at : Option ℕ

-- An item of `state["targets"]`.
pub record KeyedEntry : Type 0 where
  pub key : String
  pub entry : Entry

abbrev pub State : Type 0
State = List KeyedEntry

-- `_sort_epoch(a) >= _sort_epoch(b)`
abbrev pub not_before : Option ℕ → Option ℕ → Bool
not_before a none = true
not_before none (some t) = false
not_before (some s) (some t) = leb t s

-- `_sort_epoch(ts) >= epoch - RETENTION_SECONDS`
abbrev pub retained : ℕ → Delivery → Bool
retained epoch d = elim d.sent_at [ none ↦ false | some t ↦ leb epoch (t + retention_seconds) ]

abbrev pub filter_retained : ℕ → List Delivery → List Delivery
filter_retained epoch [] = []
filter_retained epoch (d ∷ ds) =
    let rest = filter_retained epoch ds in if retained epoch d then d ∷ rest else rest

-- `sorted(..., key=..., reverse=True)`, which keeps the order of equal keys
abbrev pub insert_newest : Delivery → List Delivery → List Delivery
insert_newest d [] = d ∷ []
insert_newest d (x ∷ xs) =
    let rest = insert_newest d xs in if not_before d.sent_at x.sent_at then d ∷ x ∷ xs else x ∷ rest

abbrev pub newest_first : List Delivery → List Delivery
newest_first [] = []
newest_first (d ∷ ds) = insert_newest d (newest_first ds)

-- `xs[:n]`
abbrev pub first_of : ℕ → List Delivery → List Delivery
first_of zero ds = []
first_of (suc n) [] = []
first_of (suc n) (d ∷ ds) = d ∷ first_of n ds

abbrev pub limit_newest : List Delivery → List Delivery
limit_newest kept =
    if ltb retention_max_per_target (length kept)
    then first_of retention_max_per_target (newest_first kept)
    else kept

abbrev pub prune_entry : ℕ → KeyedEntry → KeyedEntry
prune_entry epoch k = record k {
  entry = record k.entry { delivered = limit_newest (filter_retained epoch k.entry.delivered) };
}

-- _prune
unfoldable pub prune : State → ℕ → State
prune state epoch = map (prune_entry epoch) state

abbrev pub empty_entry : Entry
empty_entry = record {
  delivered = [];
  last_success_at = none;
  last_warning = none;
  last_error = none;
  failure_count = 0;
  next_attempt_at = none;
}

abbrev pub target_key : String → KeyedEntry → Bool
target_key key k = k.key == key

abbrev pub entry_of : Option KeyedEntry → Entry
entry_of none = empty_entry
entry_of (some k) = k.entry

-- The entry that _target_entry finds or makes.
unfoldable pub target_entry : State → String → Entry
target_entry state key = entry_of (select (target_key key) state)

-- `state["targets"][key] = entry`
unfoldable pub set_entry : State → String → Entry → State
set_entry [] key e = record { key = key; entry = e } ∷ []
set_entry (k ∷ ks) key e =
    let rest = set_entry ks key e in if k.key == key then record k { entry = e } ∷ ks else k ∷ rest

-- _record_success
unfoldable pub record_success : Entry → ℕ → Option String → Entry
record_success e epoch warning = record e {
  last_success_at = some epoch;
  last_warning = elim warning [
    | none ↦ none
    | some code ↦ some (record { code = code; at = epoch })
  ];
  last_error = none;
  failure_count = 0;
  next_attempt_at = none;
}

-- `2 ** n`
abbrev pub power_of_two : ℕ → ℕ
power_of_two zero = 1
power_of_two (suc n) = 2 * power_of_two n

abbrev pub backoff_delay : ℕ → ℕ
backoff_delay n =
    let delay = backoff_base_seconds * power_of_two (n - 1) in
    if ltb delay backoff_cap_seconds then delay else backoff_cap_seconds

-- _record_failure
unfoldable pub record_failure : Entry → String → ℕ → Entry
record_failure e code epoch = record e {
  failure_count = suc e.failure_count;
  next_attempt_at = some (epoch + backoff_delay (suc e.failure_count));
  last_error = some (record { code = code; at = epoch });
}
