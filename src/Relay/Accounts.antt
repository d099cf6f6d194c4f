-- ===== src/Relay/Accounts.antt =====
-- What a list of deliveries records against what a log of sendings has.
pub mod Target
pub mod Run
use mathlib.Core.Path.{subst}
use hermes_gpt.Prelude.{
  ℕ, ◌+◌, ◌≤◌, String, Bool, true, false, Option, none, some, List, [], ◌∷◌, ◌++◌, ◌≡◌, refl, sym,
  ap, ◌∙◌, arith, ◌==◌, ◌&&◌, ◌||◌, ltb, leb, length, any, eq_iff, eq_refl, Bool-cases,
  Option-cases, inl, inr, if◌then◌else◌,
}
use hermes_gpt.Prelude.Names.{one_if}
use hermes_gpt.Relay.{
  Delivery, Entry, KeyedEntry, State, record_success, record_failure, set_entry, target_entry,
}
use hermes_gpt.Relay.Inbox.{Item}
use hermes_gpt.Relay.Target.{
  Send, Sending, Message, item_message, digest_message, Batch, is_delivered, set_delivered,
  set_all_delivered, new_items, sent_item, failed_item, send_items, batch_entry, batch_success,
  batch_failure, serve_digest, serve_items, serve_new, serve_target, in_backoff,
}

-- How often a list of items has an id.
abbrev pub occurrences : String → List Item → ℕ
occurrences id [] = 0
occurrences id (i ∷ is) = one_if (i.item_id == id) + occurrences id is

abbrev pub mentions : String → Message → ℕ
mentions id (item_message i) = one_if (i.item_id == id)
mentions id (digest_message is) = occurrences id is

-- How often a log has an item sent to a target, in a message of its own or in a digest.
abbrev pub sends : String → String → List Sending → ℕ
sends key id [] = 0
sends key id (s ∷ log) =
    (if s.ok && s.key == key then mentions id s.message else 0) + sends key id log

-- What a list of deliveries is seen as, now or after a pruning: a delivery of this run is seen.
pub record View (epoch : ℕ) : Type 0 where
  pub seen : List Delivery → List Delivery
  pub records :
      (id : String) (ds : List Delivery) (x : String)
      → is_delivered (seen (set_delivered epoch id ds)) x ≡ (id == x || is_delivered (seen ds) x)

-- How often an id was sent, before and after, and whether it was and is recorded, as a list has it
-- and as the list is seen: at most `most` sendings are new, and it is recorded where it was recorded
-- before or there is a new one.
pub record Grows (before after most : ℕ) (old new seen_old seen_new : Bool) : Type 0 where
  pub le : before ≤ after
  pub bound : after ≤ before + most
  pub recorded : new ≡ (old || ltb before after)
  pub visible : seen_new ≡ (seen_old || ltb before after)

pub Grows-refl : (n most : ℕ) (old seen : Bool) → Grows n n most old old seen seen
Grows-refl n most old seen = record {
  le = omega arith;
  bound = omega arith;
  recorded = ground arith;
  visible = ground arith;
}

pub Grows-same : (n m most : ℕ) (old seen : Bool) → m ≡ n → Grows n m most old old seen seen
Grows-same n m most old seen h = record {
  le = omega (arith, h);
  bound = omega (arith, h);
  recorded = ground (arith, h);
  visible = ground (arith, h);
}

-- From one list of deliveries and log to the next, every id grows so, by at most what `most` says.
abbrev pub Accounts :
    {epoch : ℕ}
    → View epoch
    → String
    → (String → ℕ)
    → List Delivery
    → List Sending
    → List Delivery
    → List Sending
    → Type 0
Accounts v key most ds log ds' log' =
    (id : String)
    → Grows (sends key id log) (sends key id log') (most id) (is_delivered ds id)
        (is_delivered ds' id) (is_delivered (v.seen ds) id) (is_delivered (v.seen ds') id)

-- How often a target may be sent an id: not at all when it was recorded, else as often as the
-- inbox lists it.
abbrev pub open_to : List Item → List Delivery → String → ℕ
open_to is ds id = if is_delivered ds id then 0 else occurrences id is

pub occurrences-new_items :
    (ds : List Delivery) (is : List Item) (id : String)
    → occurrences id (new_items ds is) ≡ (if is_delivered ds id then 0 else occurrences id is)
occurrences-new_items ds [] id = ground arith
occurrences-new_items ds (i ∷ is) id = elim (Bool-cases (i.item_id == id)) [
  | inr h ↦ ground (arith, occurrences-new_items ds is id)
  | inl h ↦
      ground
        (arith, occurrences-new_items ds is id, ap (is_delivered ds) ((eq_iff i.item_id id).0 h))
]

pub is_delivered-set :
    (epoch : ℕ) (id : String) (ds : List Delivery) (x : String)
    → is_delivered (set_delivered epoch id ds) x ≡ (id == x || is_delivered ds x)
is_delivered-set epoch id [] x = refl
is_delivered-set epoch id (d ∷ ds) x =
    ground
      (arith, eq_iff d.item_id id, eq_iff d.item_id x, eq_iff id x, is_delivered-set epoch id ds x)

-- The deliveries as they are.
abbrev pub present : (epoch : ℕ) → View epoch
present epoch = record { seen = λ ds. ds; records = is_delivered-set epoch }

-- A batch of deliveries.
pub is_delivered-set_all :
    {epoch : ℕ} (v : View epoch) (is : List Item) (ds : List Delivery) (x : String)
    → is_delivered (v.seen (set_all_delivered epoch is ds)) x
      ≡ (is_delivered (v.seen ds) x || ltb 0 (occurrences x is))
is_delivered-set_all v [] ds x = ground arith
is_delivered-set_all {epoch} v (i ∷ is) ds x = ground (
  arith,
  is_delivered-set_all v is (set_delivered epoch i.item_id ds) x,
  v.records i.item_id ds x,
)
