-- ===== src/Relay/Inbox.antt =====
-- operator_attention_delivery.py: which items of the inbox are sent (ITEM_ID_RE and _identify).
use hermes_gpt.Prelude.{
  ℕ, suc, ◌+◌, String, Bool, false, Option, none, some, List, [], ◌∷◌, ◌&&◌, ◌||◌, leb, eqb, ltb,
  length, all, if◌then◌else◌,
}
use hermes_gpt.Plan.Ids.{characters, alphanumeric}
use hermes_gpt.Relay.{retention_seconds}

-- An item of the inbox. `item_id` is `none` where it is no text, and `since` where it writes no time.
pub record InboxItem : Type 0 where
  pub item_id : Option String
  pub kind : String
  pub acknowledged : Bool
  pub since : Option ℕ

-- An item with the id that it is known by.
pub record Item : Type 0 where
  pub item_id : String
  pub kind : String

abbrev pub item_id_character : ℕ → Bool
item_id_character c = alphanumeric c || (eqb c b'.' || (eqb c b'_' || (eqb c b':' || eqb c b'-')))

-- `[A-Za-z0-9._:-]{1,200}` against the whole text
unfoldable pub is_item_id : String → Bool
is_item_id s =
    let codes = characters s in
    leb 1 (length codes) && (leb (length codes) 200 && all item_id_character codes)

-- How many items were left out, and why.
pub record Skipped : Type 0 where
  pub missing_item_id : ℕ
  pub acknowledged : ℕ
  pub stale : ℕ

-- `since is not None and since < cutoff`
abbrev pub is_stale : ℕ → Option ℕ → Bool
is_stale epoch none = false
is_stale epoch (some t) = ltb (t + retention_seconds) epoch

-- The id of an item that is a mapping and has one.
unfoldable pub known_id : Option InboxItem → Option String
known_id none = none
known_id (some item) = elim item.item_id [
  | none ↦ none
  | some id ↦ if is_item_id id then some id else none
]

abbrev skip_missing : List Item × Skipped → List Item × Skipped
skip_missing r = (r.0, record r.1 { missing_item_id = suc r.1.missing_item_id })

abbrev skip_acknowledged : List Item × Skipped → List Item × Skipped
skip_acknowledged r = (r.0, record r.1 { acknowledged = suc r.1.acknowledged })

abbrev skip_stale : List Item × Skipped → List Item × Skipped
skip_stale r = (r.0, record r.1 { stale = suc r.1.stale })

abbrev pub identify_one : ℕ → InboxItem → Option String → List Item × Skipped → List Item × Skipped
identify_one epoch item none r = skip_missing r
identify_one epoch item (some id) r =
    if item.acknowledged
    then skip_acknowledged r
    else if is_stale epoch item.since
    then skip_stale r
    else (record { item_id = id; kind = item.kind } ∷ r.0, r.1)

-- _identify. An element of the inbox that is no mapping is `none`.
unfoldable pub identify : ℕ → List (Option InboxItem) → List Item × Skipped
identify epoch [] = ([], record { missing_item_id = 0; acknowledged = 0; stale = 0 })
identify epoch (none ∷ items) = skip_missing (identify epoch items)
identify epoch (some item ∷ items) =
    identify_one epoch item (known_id (some item)) (identify epoch items)
