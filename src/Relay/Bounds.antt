-- ===== src/Relay/Bounds.antt =====
-- How much a run sends, and how long a target that failed is left alone.
use hermes_gpt.Prelude.{
  ℕ, zero, suc, ◌+◌, ◌-◌, ◌*◌, ◌≤◌, ◌<◌, String, true, false, Option, none, some, List, [], ◌∷◌,
  ◌≡◌, refl, arith, eq_iff, ltb, length, Bool-cases, Option-cases, inl, inr,
}
use hermes_gpt.Relay.{
  Entry, State, backoff_base_seconds, backoff_cap_seconds, power_of_two, backoff_delay,
  record_failure, prune, target_entry,
}
use hermes_gpt.Relay.Inbox.{Item, identify}
use hermes_gpt.Relay.Target.{
  Send, Sending, item_message, digest_message, Batch, new_items, sent_item, first_batch, send_items,
  or_bad_response, batch_failure, batch_status, in_backoff, serve_digest, serve_items, serve_new,
  serve_target,
}
use hermes_gpt.Relay.Entries.{set_entry_here}
use hermes_gpt.Relay.Run.{serve_one, serve_targets, Config, Env, run_round, run_once}

few_fit :
    (is : List Item) (max_per_run : ℕ)
    → ltb max_per_run (suc (length is)) ≡ false
    → suc (length is) ≤ max_per_run
few_fit is max_per_run h = ground (arith, h)

module _ (send : Send) (epoch : ℕ) (key : String) where
  send_items_bound :
      (is : List Item) (b : Batch)
      → length (send_items send epoch key is b).log ≤ length is + length b.log
  unfolding send_items
  send_items_bound [] b = omega arith
  send_items_bound (i ∷ is) b =
      let answer = send key (item_message i) (length b.log) in
      elim (Bool-cases answer.0) [
        | inl e ↦
            rw (e) (omega (arith, send_items_bound is (sent_item send epoch key i answer.1 b)))
        | inr e ↦ rw (e) (omega arith)
      ]

  serve_digest_bound :
      (is : List Item) (e : Entry) (log : List Sending)
      → length (serve_digest send epoch key is e log).1 ≤ 1 + length log
  unfolding serve_digest
  serve_digest_bound is e log = elim (Bool-cases (send key (digest_message is) (length log)).0) [
    | inl ok ↦ rw (ok) (omega arith)
    | inr bad ↦ rw (bad) (omega arith)
  ]

  serve_new_bound :
      (max_per_run : ℕ) (identified is : List Item) (e : Entry) (log : List Sending)
      → 1 ≤ max_per_run
      → length (serve_new send epoch key max_per_run identified is e log).1
        ≤ max_per_run + length log
  unfolding serve_new serve_items
  serve_new_bound max_per_run identified [] e log h = omega arith
  serve_new_bound max_per_run identified (i ∷ is) e log h =
      elim (Bool-cases (in_backoff send epoch key e)) [
        | inl wait ↦ rw (wait) (omega arith)
        | inr go ↦ elim (Bool-cases (ltb max_per_run (length (i ∷ is)))) [
          | inl many ↦ rw (go, many) (omega (arith, serve_digest_bound (i ∷ is) e log))
          | inr few ↦
              rw (go, few)
                (omega (
                  arith,
                  send_items_bound (i ∷ is) (first_batch send epoch key e log),
                  few_fit is max_per_run few,
                ))
        ]
      ]

serve_targets_bound :
    (send : Send) (epoch max_per_run : ℕ) (identified : List Item) (keys : List String)
    (state : State) (log : List Sending)
    → 1 ≤ max_per_run
    → length (serve_targets send epoch max_per_run identified keys state log).log
      ≤ length keys * max_per_run + length log
unfolding serve_targets serve_one serve_target
serve_targets_bound send epoch max_per_run identified [] state log h = omega arith
serve_targets_bound send epoch max_per_run identified (k ∷ ks) state log h =
    let first = serve_one send epoch max_per_run identified k state log in
    let e = target_entry state k in
    omega (
      arith,
      serve_targets_bound send epoch max_per_run identified ks first.state first.log h,
      serve_new_bound send epoch k max_per_run identified (new_items e.delivered identified) e log
          h,
    )

-- A run, however it ends, calls _send at most as often as the limit for a run allows for each target.
pub run_once_bound :
    (env : Env) (config : Config)
    → env.config ≡ some config
    → 1 ≤ config.max_per_run
    → length (run_once env).log ≤ length config.targets * config.max_per_run
unfolding run_once run_round
run_once_bound env config found h = elim (Bool-cases env.enabled) [
  | inr off ↦ simp (off) (omega arith)
  | inl on ↦ elim (Bool-cases env.lock_free) [
    | inr taken ↦ simp (on, found, taken) (omega arith)
    | inl free ↦ elim (Option-cases env.stored) [
      | inl unread ↦ simp (on, found, free, unread) (omega arith)
      | inr (state, read) ↦ elim (Option-cases env.inbox) [
        | inl unread ↦ simp (on, found, free, read, unread) (omega arith)
        | inr (inbox, seen) ↦
            simp (on, found, free, read, seen)
              (omega (
                arith,
                serve_targets_bound env.send env.epoch config.max_per_run
                    (identify env.epoch inbox.items).0 config.targets (prune state env.epoch) [] h,
              ))
      ]
    ]
  ]
]

power_of_two_pos : (n : ℕ) → 1 ≤ power_of_two n
power_of_two_pos zero = omega arith
power_of_two_pos (suc n) = omega (arith, power_of_two_pos n)

pub backoff_delay_bounds : (n : ℕ) → (30 ≤ backoff_delay n) × (backoff_delay n ≤ 3600)
backoff_delay_bounds n = (ground (arith, power_of_two_pos (n - 1)), ground arith)

-- An entry whose target is left alone from the time of the failure.
abbrev Waits : ℕ → Entry → Type 0
Waits epoch e =
    (t : ℕ) × (e.next_attempt_at ≡ some t)
    × (epoch + backoff_base_seconds ≤ t)
    × (t ≤ epoch + backoff_cap_seconds)

record_failure-Waits :
    (e : Entry) (code : String) (epoch : ℕ) → Waits epoch (record_failure e code epoch)
unfolding record_failure
record_failure-Waits e code epoch =
    let bounds = backoff_delay_bounds (suc e.failure_count) in
    (
      epoch + backoff_delay (suc e.failure_count),
      refl,
      omega (arith, bounds.0),
      omega (arith, bounds.1),
    )

module _ (send : Send) (epoch : ℕ) (key : String) where
  batch_Waits :
      (e : Entry) (failure : Option String)
      → batch_status send epoch key failure ≡ "error"
      → Waits epoch (batch_failure send epoch key e failure)
  batch_Waits e none h = absurd (ground (arith, h, eq_iff "delivered" "error"))
  batch_Waits e (some code) h = record_failure-Waits e code epoch

  digest_Waits :
      (is : List Item) (e : Entry) (log : List Sending)
      → (serve_digest send epoch key is e log).2.status ≡ "error"
      → Waits epoch (serve_digest send epoch key is e log).0
  unfolding serve_digest
  digest_Waits is e log h =
      let answer = send key (digest_message is) (length log) in
      elim (Bool-cases answer.0) [
        | inl ok ↦ absurd (ground (arith, rw (ok) at h, eq_iff "digest" "error"))
        | inr bad ↦ rw (bad) (record_failure-Waits e (or_bad_response answer.1) epoch)
      ]

  items_Waits :
      (identified is : List Item) (e : Entry) (log : List Sending)
      → (serve_items send epoch key identified is e log).2.status ≡ "error"
      → Waits epoch (serve_items send epoch key identified is e log).0
  unfolding serve_items
  items_Waits identified is e log h =
      batch_Waits _ (send_items send epoch key is (first_batch send epoch key e log)).failure h

  error_Waits :
      (max_per_run : ℕ) (identified is : List Item) (e : Entry) (log : List Sending)
      → (serve_new send epoch key max_per_run identified is e log).2.status ≡ "error"
      → Waits epoch (serve_new send epoch key max_per_run identified is e log).0
  unfolding serve_new
  error_Waits max_per_run identified [] e log h = absurd (ground (arith, h, eq_iff "idle" "error"))
  error_Waits max_per_run identified (i ∷ is) e log h =
      elim (Bool-cases (in_backoff send epoch key e)) [
        | inl wait ↦ absurd (ground (arith, rw (wait) at h, eq_iff "backoff" "error"))
        | inr go ↦ elim (Bool-cases (ltb max_per_run (length (i ∷ is)))) [
          | inl many ↦ rw (go, many) (digest_Waits (i ∷ is) e log (rw (go, many) at h))
          | inr few ↦ rw (go, few) (items_Waits identified (i ∷ is) e log (rw (go, few) at h))
        ]
      ]

  waiting_backoff :
      (e : Entry) (t : ℕ)
      → e.next_attempt_at ≡ some t
      → epoch < t
      → in_backoff send epoch key e ≡ true
  waiting_backoff e t next h = rw (next) (ground (arith, h))

  -- A target that waits is sent nothing.
  waiting_quiet :
      (max_per_run : ℕ) (identified is : List Item) (e : Entry) (log : List Sending) (t : ℕ)
      → e.next_attempt_at ≡ some t
      → epoch < t
      → (serve_new send epoch key max_per_run identified is e log).1 ≡ log
  unfolding serve_new
  waiting_quiet max_per_run identified [] e log t next h = refl
  waiting_quiet max_per_run identified (i ∷ is) e log t next h =
      rw (waiting_backoff e t next h) refl

-- A target whose sending failed in a run waits between 30 and 3600 seconds: within 30 seconds of the
-- failure a run that starts from the state then calls _send for it not once.
pub failed_target-Waits :
    (send : Send) (epoch max_per_run : ℕ) (identified : List Item) (key : String) (state : State)
    (log : List Sending) (send' : Send) (now max_per_run' : ℕ) (identified' : List Item)
    (log' : List Sending)
    → (serve_target send epoch key max_per_run identified state log).2.status ≡ "error"
    → now < epoch + backoff_base_seconds
    → Waits epoch
        (target_entry (serve_one send epoch max_per_run identified key state log).state key)
      × ((serve_target send' now key max_per_run' identified'
            (serve_one send epoch max_per_run identified key state log).state
            log').1
          ≡ log')
unfolding serve_one serve_target
failed_target-Waits send epoch max_per_run identified key state log send' now max_per_run'
      identified' log' failed soon =
    let e = target_entry state key in
    let served =
      serve_new send epoch key max_per_run identified (new_items e.delivered identified) e log in
    let waits =
      error_Waits send epoch key max_per_run identified (new_items e.delivered identified) e log
        failed in
    rw (set_entry_here state key served.0) (
      waits,
      waiting_quiet send' now key max_per_run' identified' _ served.0 log' waits.0 waits.1
          (omega (arith, waits.2, soon)),
    )
