-- ===== src/Relay/Once.antt =====
-- How often an item is sent to a target, in a run and in the next one.
use mathlib.Core.Path.{subst}
use hermes_gpt.Prelude.{
  ℕ, ◌+◌, ◌≤◌, String, Bool, true, Option, none, some, List, [], ◌∷◌, ◌≡◌, refl, sym, ◌∙◌, arith,
  ◌==◌, ◌&&◌, ◌||◌, ltb, length, eq_iff, Bool-cases, inl, inr,
}
use hermes_gpt.Prelude.Rows.{select}
use hermes_gpt.Relay.{
  Delivery, State, retention_seconds, retention_max_per_target, retained, filter_retained,
  limit_newest, prune, target_key, target_entry,
}
use hermes_gpt.Relay.Inbox.{Item, identify}
use hermes_gpt.Relay.Target.{is_delivered, set_delivered}
use hermes_gpt.Relay.Run.{Round, serve_targets, Config, OwnerInbox, Env, run_round, run_once}
use hermes_gpt.Relay.Accounts.{sends, open_to, View, present}
use hermes_gpt.Relay.Accounts.Run.{delivered_to, serve_targets-Accounts}

-- The items that a run may send.
abbrev pub items_of : ℕ → Option OwnerInbox → List Item
items_of epoch none = []
items_of epoch (some inbox) = (identify epoch inbox.items).0

abbrev pub known_items : Env → List Item
known_items env = items_of env.epoch env.inbox

-- The state after the pruning of a run.
abbrev pub pruned : Env → State
pruned env = elim env.stored [ none ↦ [] | some state ↦ prune state env.epoch ]

-- A run whose configuration, lock, state and inbox are as run_once needs them, and that saves.
abbrev pub Runs : Env → Config → State → OwnerInbox → Type 0
Runs env config state inbox =
    (env.enabled ≡ true)
    × (env.config ≡ some config)
    × (env.lock_free ≡ true)
    × (env.stored ≡ some state)
    × (env.inbox ≡ some inbox)
    × (env.writable ≡ true)

abbrev round_of : Env → Config → State → OwnerInbox → Round
round_of env config state inbox =
    serve_targets env.send env.epoch config.max_per_run (identify env.epoch inbox.items).0
      config.targets (prune state env.epoch) []

run_once_round :
    (env : Env) (config : Config) (state : State) (inbox : OwnerInbox)
    → Runs env config state inbox
    → ((run_once env).stored ≡ some (round_of env config state inbox).state)
      × ((run_once env).log ≡ (round_of env config state inbox).log)
unfolding run_once run_round
run_once_round env config state inbox (e, c, l, s, i, w) =
    (simp (e, c, l, s, i, w) refl, simp (e, c, l, s, i) refl)

-- After a run that saves, a target is recorded to have had an item exactly when the pruned state
-- recorded it or the run sent it. An item that was recorded is not sent, and any other is sent to the
-- target no more often than the inbox lists its id.
pub run_once_accounts :
    (env : Env) (config : Config) (state : State) (inbox : OwnerInbox) (key id : String)
    → Runs env config state inbox
    → (after : State) × ((run_once env).stored ≡ some after)
      × (is_delivered (delivered_to after key) id ≡ (
          is_delivered (delivered_to (prune state env.epoch) key) id
          || ltb 0 (sends key id (run_once env).log)))
      × (sends key id (run_once env).log
          ≤ open_to (known_items env) (delivered_to (prune state env.epoch) key) id)
run_once_accounts env config state inbox key id runs =
    let done = run_once_round env config state inbox runs in
    let grows =
      serve_targets-Accounts (present env.epoch) env.send config.max_per_run
        (identify env.epoch inbox.items).0 config.targets (prune state env.epoch) [] key id in
    (
      (round_of env config state inbox).state,
      done.0,
      rw (done.1) grows.recorded,
      rw (done.1) (
          subst
            (λ found.
              sends key id (round_of env config state inbox).log
              ≤ open_to (items_of env.epoch found) (delivered_to (prune state env.epoch) key) id)
            (sym runs.4) (omega (arith, grows.bound))),
    )

-- Deliveries that a later pruning keeps.
is_delivered-filter_cons :
    (now : ℕ) (d : Delivery) (ds : List Delivery) (x : String)
    → is_delivered (filter_retained now (d ∷ ds)) x
      ≡ (retained now d && d.item_id == x || is_delivered (filter_retained now ds) x)
is_delivered-filter_cons now d ds x = elim (Bool-cases (retained now d)) [
  | inl h ↦ rw (h) refl
  | inr h ↦ rw (h) refl
]

filter-set :
    (epoch now : ℕ) (id : String) (ds : List Delivery) (x : String)
    → now ≤ epoch + retention_seconds
    → is_delivered (filter_retained now (set_delivered epoch id ds)) x
      ≡ (id == x || is_delivered (filter_retained now ds) x)
filter-set epoch now id [] x h =
    is_delivered-filter_cons now (record { item_id = id; sent_at = some epoch }) [] x ∙ ground arith
filter-set epoch now id (d ∷ ds) x h = elim (Bool-cases (d.item_id == id)) [
  | inl same ↦ rw (same) (
      ground (
        arith,
        h,
        is_delivered-filter_cons now (record d { sent_at = some epoch }) ds x,
        is_delivered-filter_cons now d ds x,
        eq_iff d.item_id x,
        eq_iff d.item_id id,
        eq_iff id x,
      ))
  | inr diff ↦ rw (diff) (
      ground (
        arith,
        is_delivered-filter_cons now d (set_delivered epoch id ds) x,
        is_delivered-filter_cons now d ds x,
        filter-set epoch now id ds x h,
      ))
]

abbrev later : (epoch now : ℕ) → now ≤ epoch + retention_seconds → View epoch
later epoch now h = record {
  seen = filter_retained now;
  records = λ id ds x. filter-set epoch now id ds x h;
}

pub delivered_to-prune :
    (state : State) (now : ℕ) (key : String)
    → delivered_to (prune state now) key
      ≡ limit_newest (filter_retained now (delivered_to state key))
unfolding prune target_entry select
delivered_to-prune [] now key = refl
delivered_to-prune (k ∷ ks) now key = elim (Bool-cases (k.key == key)) [
  | inl h ↦ rw (delivered_to, target_key, h) refl
  | inr h ↦ rw (delivered_to, target_key, h) (delivered_to-prune ks now key)
]

limit_newest_all :
    (ds : List Delivery) → length ds ≤ retention_max_per_target → limit_newest ds ≡ ds
limit_newest_all ds h = ground (arith, h)

some_injective : {s t : State} → ◌≡◌ {A = Option State} (some s) (some t) → s ≡ t
some_injective h = cc

or_sent : (b : Bool) (n : ℕ) → 1 ≤ n → (b || ltb 0 n) ≡ true
or_sent b n h = ground (arith, h)

-- What a run sent is recorded in a form that a pruning within the retention keeps.
sent_kept :
    (env : Env) (config : Config) (state : State) (inbox : OwnerInbox) (key id : String) (now : ℕ)
    (after : State)
    → Runs env config state inbox
    → (run_once env).stored ≡ some after
    → 1 ≤ sends key id (run_once env).log
    → now ≤ env.epoch + retention_seconds
    → is_delivered (filter_retained now (delivered_to after key)) id ≡ true
sent_kept env config state inbox key id now after runs stored sent h =
    let done = run_once_round env config state inbox runs in
    let grows =
      serve_targets-Accounts (later env.epoch now h) env.send config.max_per_run
        (identify env.epoch inbox.items).0 config.targets (prune state env.epoch) [] key id in
    subst (λ state'. is_delivered (filter_retained now (delivered_to state' key)) id ≡ true)
      (some_injective (sym done.0 ∙ stored)) (grows.visible ∙ or_sent _ _ (rw (done.1) at sent))

-- Where a run that saves sent an item to a target, a next run that saves, started from the state that
-- the first left and no later than the retention after it, does not send the item to the target, as
-- long as at most 2000 deliveries of the target are retained.
pub run_once_not_again :
    (env : Env) (config : Config) (state : State) (inbox : OwnerInbox) (env' : Env)
    (config' : Config) (after : State) (inbox' : OwnerInbox) (key id : String)
    → Runs env config state inbox
    → Runs env' config' after inbox'
    → (run_once env).stored ≡ some after
    → env'.epoch ≤ env.epoch + retention_seconds
    → length (filter_retained env'.epoch (delivered_to after key)) ≤ retention_max_per_target
    → 1 ≤ sends key id (run_once env).log
    → sends key id (run_once env').log ≡ 0
run_once_not_again env config state inbox env' config' after inbox' key id runs runs' stored soon
      few sent =
    let next = run_once_accounts env' config' after inbox' key id runs' in
    ground (
      arith,
      next.3,
      delivered_to-prune after env'.epoch key,
      limit_newest_all (filter_retained env'.epoch (delivered_to after key)) few,
      sent_kept env config state inbox key id env'.epoch after runs stored sent soon,
    )
