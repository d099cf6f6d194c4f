-- ===== src/Relay/Target.antt =====
-- operator_attention_delivery.py: what run_once does for one target. What _send answers is a
-- parameter: the backends are child processes. A text to send is what _item_message and
-- _digest_message make it of; the log of a run has the last sending first.
use hermes_gpt.Prelude.{
  ℕ, suc, String, Bool, true, false, not, Option, none, some, List, [], ◌∷◌, ◌==◌, ltb, leb, length,
  any, if◌then◌else◌,
}
use hermes_gpt.Relay.{Delivery, Entry, State, target_entry, record_success, record_failure}
use hermes_gpt.Relay.Inbox.{Item}

pub data Message : Type 0 where
  item_message : Item → Message
  digest_message : List Item → Message

-- A call of _send.
pub record Sending : Type 0 where
  pub key : String
  pub message : Message
  pub ok : Bool

-- What _send answers: the target, the text, and how many sendings the run has made before.
abbrev pub Send : Type 0
Send = String → Message → ℕ → Bool × Option String

-- `if code`
abbrev pub is_given : Option String → Bool
is_given none = false
is_given (some code) = not (code == "")

-- `code or ERR_BAD_RESPONSE`
abbrev pub or_bad_response : Option String → String
or_bad_response code = elim code [
  | none ↦ "BAD_RESPONSE"
  | some c ↦ if c == "" then "BAD_RESPONSE" else c
]

-- `item_id in entry["delivered"]`
abbrev pub is_delivered : List Delivery → String → Bool
is_delivered ds id = any (λ d. d.item_id == id) ds

-- `entry["delivered"][item_id] = stamp`
abbrev pub set_delivered : ℕ → String → List Delivery → List Delivery
set_delivered epoch id [] = record { item_id = id; sent_at = some epoch } ∷ []
set_delivered epoch id (d ∷ ds) =
    let rest = set_delivered epoch id ds in
    if d.item_id == id then record d { sent_at = some epoch } ∷ ds else d ∷ rest

abbrev pub set_all_delivered : ℕ → List Item → List Delivery → List Delivery
set_all_delivered epoch [] ds = ds
set_all_delivered epoch (i ∷ is) ds = set_all_delivered epoch is (set_delivered epoch i.item_id ds)

-- The items that the target has not had.
abbrev pub new_items : List Delivery → List Item → List Item
new_items ds [] = []
new_items ds (i ∷ is) =
    let rest = new_items ds is in if is_delivered ds i.item_id then rest else i ∷ rest

-- The variables of the loop over the new items.
pub record Batch : Type 0 where
  pub delivered : List Delivery
  pub log : List Sending
  pub sent_here : ℕ
  pub unverified : ℕ
  pub failure : Option String

-- The report on a target.
pub record TargetReport : Type 0 where
  pub target : String
  pub status : String
  pub messages : ℕ
  pub items_delivered : ℕ
  pub digest : Bool
  pub error : Option String
  pub pending : ℕ

module _ (send : Send) (epoch : ℕ) (key : String) where
  abbrev pub sent_item : Item → Option String → Batch → Batch
  sent_item i code b = record b {
    delivered = set_delivered epoch i.item_id b.delivered;
    log = record { key = key; message = item_message i; ok = true } ∷ b.log;
    sent_here = suc b.sent_here;
    unverified = (if is_given code then suc b.unverified else b.unverified);
  }

  abbrev pub failed_item : Item → Option String → Batch → Batch
  failed_item i code b = record b {
    log = record { key = key; message = item_message i; ok = false } ∷ b.log;
    failure = some (or_bad_response code);
  }

  -- The loop over the new items, which a failure ends.
  unfoldable pub send_items : List Item → Batch → Batch
  send_items [] b = b
  send_items (i ∷ is) b =
      let answer = send key (item_message i) (length b.log) in
      let rest = send_items is (sent_item i answer.1 b) in
      if answer.0 then rest else failed_item i answer.1 b

  abbrev pub warning_of : ℕ → Option String
  warning_of n = if leb 1 n then some "SENT_UNVERIFIED" else none

  abbrev pub batch_success : Entry → Batch → Entry
  batch_success e b =
      if leb 1 b.sent_here then record_success e epoch (warning_of b.unverified) else e

  abbrev pub batch_failure : Entry → Option String → Entry
  batch_failure e none = e
  batch_failure e (some code) = record_failure e code epoch

  -- The entry after the loop.
  abbrev pub batch_entry : Entry → Batch → Entry
  batch_entry e b = batch_failure (batch_success (record e { delivered = b.delivered }) b) b.failure

  abbrev pub batch_status : Option String → String
  batch_status none = "delivered"
  batch_status (some code) = "error"

  -- What one target gets: its entry, the log and the report.
  abbrev pub Served : Type 0
  Served = Entry × List Sending × TargetReport

  abbrev pub idle_report : String → List Item → TargetReport
  idle_report status items = record {
    target = key;
    status = status;
    messages = 0;
    items_delivered = 0;
    digest = false;
    error = none;
    pending = length items;
  }

  abbrev pub digest_log : Bool → List Item → List Sending → List Sending
  digest_log ok items log = record { key = key; message = digest_message items; ok = ok } ∷ log

  abbrev pub digest_sent : List Item → Entry → List Sending → Option String → Served
  digest_sent items e log code = (
    record_success (record e { delivered = set_all_delivered epoch items e.delivered }) epoch
        (if is_given code then code else none),
    digest_log true items log,
    record (idle_report "digest" items) {
      messages = 1;
      items_delivered = length items;
      digest = true;
    },
  )

  abbrev pub digest_failed : List Item → Entry → List Sending → Option String → Served
  digest_failed items e log code = (
    record_failure e (or_bad_response code) epoch,
    digest_log false items log,
    record (idle_report "error" items) { error = code },
  )

  unfoldable pub serve_digest : List Item → Entry → List Sending → Served
  serve_digest items e log =
      let answer = send key (digest_message items) (length log) in
      if answer.0 then digest_sent items e log answer.1 else digest_failed items e log answer.1

  abbrev pub batch_served : List Item → List Item → Entry → Batch → Served
  batch_served identified items e b = (
    batch_entry e b,
    b.log,
    record (idle_report (batch_status b.failure) items) {
      messages = b.sent_here;
      items_delivered = b.sent_here;
      error = b.failure;
      pending = length (new_items b.delivered identified);
    },
  )

  abbrev pub first_batch : Entry → List Sending → Batch
  first_batch e log = record {
    delivered = e.delivered;
    log = log;
    sent_here = 0;
    unverified = 0;
    failure = none;
  }

  unfoldable pub serve_items : List Item → List Item → Entry → List Sending → Served
  unfolding send_items
  serve_items identified items e log =
      batch_served identified items e (send_items items (first_batch e log))

  -- `next_attempt is not None and next_attempt > epoch`
  abbrev pub in_backoff : Entry → Bool
  in_backoff e = elim e.next_attempt_at [ none ↦ false | some t ↦ ltb epoch t ]

  unfoldable pub serve_new : ℕ → List Item → List Item → Entry → List Sending → Served
  unfolding serve_digest serve_items
  serve_new max_per_run identified [] e log = (e, log, idle_report "idle" [])
  serve_new max_per_run identified (i ∷ is) e log =
      if in_backoff e
      then (e, log, idle_report "backoff" (i ∷ is))
      else if ltb max_per_run (length (i ∷ is))
      then serve_digest (i ∷ is) e log
      else serve_items identified (i ∷ is) e log

  -- What run_once does for one target.
  unfoldable pub serve_target : ℕ → List Item → State → List Sending → Served
  unfolding serve_new
  serve_target max_per_run identified state log =
      let e = target_entry state key in
      serve_new max_per_run identified (new_items e.delivered identified) e log
