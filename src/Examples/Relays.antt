-- ===== src/Examples/Relays.antt =====
-- An inbox of two items, a target that was sent the first, and a backend that answers by a rule.
use hermes_gpt.Prelude.{
  ℕ, ◌≤◌, ◌+◌, ◌*◌, String, true, false, ◌≡◌, refl, none, some, List, [], ◌∷◌, arith, length, inl,
  ◌⊎◌, ◌||◌, ltb,
}
use hermes_gpt.Prelude.Rows.{select}
use hermes_gpt.Relay.{
  Delivery, Entry, State, filter_retained, prune, target_entry, set_entry, record_success,
  record_failure, not_before,
}
use hermes_gpt.Relay.Inbox.{InboxItem, Item, is_item_id, known_id, identify}
use hermes_gpt.Relay.Target.{is_delivered, Send, send_items, serve_items, serve_new, serve_target}
use hermes_gpt.Relay.Run.{Config, OwnerInbox, Env, serve_one, serve_targets, run_round, run_once}
use hermes_gpt.Relay.Accounts.{sends, open_to}
use hermes_gpt.Relay.Accounts.Run.{delivered_to}
use hermes_gpt.Relay.Once.{Runs, known_items, run_once_accounts, run_once_not_again}
use hermes_gpt.Relay.Bounds.{run_once_bound, failed_target-Waits}
use hermes_gpt.Relay.Retention.{In, prune_keeps_newest}

abbrev old_item : InboxItem
old_item = record { item_id = some "a1"; kind = "red_health"; acknowledged = false; since = none }

abbrev new_item : InboxItem
new_item = record {
  item_id = some "b2";
  kind = "budget_breaker";
  acknowledged = false;
  since = some 1300000;
}

abbrev inbox : OwnerInbox
inbox = record { complete = true; items = some old_item ∷ some new_item ∷ none ∷ [] }

abbrev phone : String
phone = "imessage:+15550001111"

abbrev first_delivery : Delivery
first_delivery = record { item_id = "a1"; sent_at = some 1200000 }

abbrev phone_entry : Entry
phone_entry = record {
  delivered = first_delivery ∷ [];
  last_success_at = some 1200000;
  last_warning = none;
  last_error = none;
  failure_count = 0;
  next_attempt_at = none;
}

abbrev stored : State
stored = record { key = phone; entry = phone_entry } ∷ []

abbrev config : Config
config = record { targets = phone ∷ []; max_per_run = 5 }

abbrev always : Send
always key message n = (true, none)

abbrev never : Send
never key message n = (false, some "TIMEOUT")

abbrev env_at : Send → State → ℕ → Env
env_at send state epoch = record {
  enabled = true;
  config = some config;
  lock_free = true;
  stored = some state;
  inbox = some inbox;
  send = send;
  writable = true;
  epoch = epoch;
}

abbrev first_run : Env
first_run = env_at always stored 1300100

abbrev after_first : State
after_first =
    record {
      key = phone;
      entry = record {
        delivered = first_delivery ∷ record { item_id = "b2"; sent_at = some 1300100 } ∷ [];
        last_success_at = some 1300100;
        last_warning = none;
        last_error = none;
        failure_count = 0;
        next_attempt_at = none;
      };
    }
    ∷ []

first_items :
    (identify 1300100 inbox.items).0
    ≡ record { item_id = "a1"; kind = "red_health" }
      ∷ record { item_id = "b2"; kind = "budget_breaker" }
      ∷ []
unfolding identify known_id is_item_id
first_items = refl

first_stored : (run_once first_run).stored ≡ some after_first
unfolding run_once run_round serve_targets serve_one serve_target serve_new serve_items send_items
    record_success prune set_entry target_entry select identify known_id is_item_id
first_stored = refl

two_items : List Item
two_items =
    record { item_id = "a1"; kind = "red_health" }
    ∷ record { item_id = "b2"; kind = "budget_breaker" }
    ∷ []

first_Runs : Runs first_run config stored inbox
first_Runs = (refl, refl, refl, refl, refl, refl)

run_once_accounts_example :
    (after : State) × ((run_once first_run).stored ≡ some after)
    × (is_delivered (delivered_to after phone) "b2" ≡ (
        is_delivered (delivered_to (prune stored 1300100) phone) "b2"
        || ltb 0 (sends phone "b2" (run_once first_run).log)))
    × (sends phone "b2" (run_once first_run).log
        ≤ open_to (known_items first_run) (delivered_to (prune stored 1300100) phone) "b2")
run_once_accounts_example = run_once_accounts first_run config stored inbox phone "b2" first_Runs

-- An inbox that has an id twice sends both.
abbrev twice : List Item
twice =
    record { item_id = "b2"; kind = "red_health" }
    ∷ record { item_id = "b2"; kind = "budget_breaker" }
    ∷ []

twice_sent : sends phone "b2" (serve_targets always 1300100 5 twice (phone ∷ []) stored []).log ≡ 2
unfolding serve_targets serve_one serve_target serve_new serve_items send_items record_success
    set_entry target_entry select
twice_sent = refl

-- A minute later.
abbrev next_run : Env
next_run = env_at always after_first 1300160

next_Runs : Runs next_run config after_first inbox
next_Runs = (refl, refl, refl, refl, refl, refl)

first_sends : sends phone "b2" (run_once first_run).log ≡ 1
unfolding run_once run_round serve_targets serve_one serve_target serve_new serve_items send_items
    record_success prune set_entry target_entry select identify known_id is_item_id
first_sends = refl

few_retained : length (filter_retained 1300160 (delivered_to after_first phone)) ≤ 2000
unfolding target_entry select
few_retained = omega arith

run_once_not_again_example : sends phone "b2" (run_once next_run).log ≡ 0
run_once_not_again_example =
    run_once_not_again first_run config stored inbox next_run config after_first inbox phone "b2"
      first_Runs next_Runs first_stored (omega arith) few_retained (omega (arith, first_sends))

run_once_bound_example :
    length (run_once first_run).log ≤ length config.targets * config.max_per_run
run_once_bound_example = run_once_bound first_run config refl (omega arith)

failed_status : (serve_target never 1300100 phone 5 two_items stored []).2.status ≡ "error"
unfolding two_items serve_target serve_new serve_items send_items record_failure target_entry select
failed_status = refl

failed_target-Waits_example :
    ((t : ℕ) × ((target_entry
          (serve_one never 1300100 5 two_items phone stored []).state
          phone).next_attempt_at
        ≡ some t)
      × (1300100 + 30 ≤ t)
      × (t ≤ 1300100 + 3600))
    × ((serve_target always 1300120 phone 5 two_items
          (serve_one never 1300100 5 two_items phone stored []).state
          []).1
        ≡ [])
failed_target-Waits_example =
    failed_target-Waits never 1300100 5 two_items phone stored [] always 1300120 5 two_items []
      failed_status (omega arith)

kept_first : In first_delivery (delivered_to (prune stored 1300100) phone)
unfolding prune target_entry select
kept_first = inl refl

retained_first : In first_delivery (filter_retained 1300100 (delivered_to stored phone))
unfolding target_entry select
retained_first = inl refl

prune_keeps_newest_example :
    (length (delivered_to (prune stored 1300100) phone) ≤ 2000)
    × (In first_delivery (delivered_to (prune stored 1300100) phone)
        ⊎ (not_before first_delivery.sent_at first_delivery.sent_at ≡ true))
prune_keeps_newest_example =
    prune_keeps_newest stored 1300100 phone first_delivery first_delivery kept_first retained_first
