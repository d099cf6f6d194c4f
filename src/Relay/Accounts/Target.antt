-- ===== src/Relay/Accounts/Target.antt =====
-- One target: nothing that is recorded is sent, and what is sent is recorded.
use hermes_gpt.Prelude.{
  ℕ, ◌+◌, Bool, ◌||◌, String, true, false, Option, none, some, List, [], ◌∷◌, ◌≡◌, refl, ◌∙◌, arith,
  ◌==◌, ltb, leb, length, eq_refl, Bool-cases, inl, inr,
}
use hermes_gpt.Prelude.Names.{one_if}
use hermes_gpt.Relay.{Entry, record_success, record_failure}
use hermes_gpt.Relay.Inbox.{Item}
use hermes_gpt.Relay.Target.{
  Send, Sending, item_message, digest_message, Batch, sent_item, first_batch, send_items,
  batch_entry, batch_success, batch_failure, serve_digest, serve_items, serve_new, in_backoff,
}
use hermes_gpt.Relay.Accounts.{
  occurrences, sends, View, Grows, Grows-refl, Grows-same, Accounts, is_delivered-set,
  is_delivered-set_all, present,
}

module _ {epoch : ℕ} (v : View epoch) (send : Send) (key : String) where
  logged :
      (i : Item) (log : List Sending) (id : String)
      → sends key id (record { key = key; message = item_message i; ok = true } ∷ log)
        ≡ one_if (i.item_id == id) + sends key id log
  logged i log id = rw (eq_refl key) refl

  -- A sent item and what follows it.
  sent-Grows :
      {before now after : ℕ} (most : ℕ) {old mid new seen_old seen_mid seen_new : Bool} (hit : Bool)
      → now ≡ one_if hit + before
      → mid ≡ (hit || old)
      → seen_mid ≡ (hit || seen_old)
      → Grows now after most mid new seen_mid seen_new
      → Grows before after (one_if hit + most) old new seen_old seen_new
  sent-Grows most hit one step step' g = record {
    le = omega (arith, one, g.le);
    bound = omega (arith, one, g.bound);
    recorded = ground (arith, one, step, g.le, g.recorded);
    visible = ground (arith, one, step', g.le, g.visible);
  }

  send_items-Accounts :
      (is : List Item) (b : Batch)
      → Accounts v key
          (λ id. occurrences id is)
          b.delivered
          b.log
          (send_items send epoch key is b).delivered
          (send_items send epoch key is b).log
  unfolding send_items
  send_items-Accounts [] b id = Grows-refl _ 0 _ _
  send_items-Accounts (i ∷ is) b id =
      let answer = send key (item_message i) (length b.log) in
      elim (Bool-cases answer.0) [
        | inl e ↦ rw (e) (
            sent-Grows (occurrences id is) (i.item_id == id) (logged i b.log id)
              (is_delivered-set epoch i.item_id b.delivered id) (v.records i.item_id b.delivered id)
              (send_items-Accounts is (sent_item send epoch key i answer.1 b) id))
        | inr e ↦ rw (e) (Grows-same _ _ _ _ _ (omega arith))
      ]

  -- The messages of one target are addressed to no other.
  send_items_elsewhere :
      (is : List Item) (b : Batch) (other id : String)
      → (key == other) ≡ false
      → sends other id (send_items send epoch key is b).log ≡ sends other id b.log
  unfolding send_items
  send_items_elsewhere [] b other id h = refl
  send_items_elsewhere (i ∷ is) b other id h =
      let answer = send key (item_message i) (length b.log) in
      elim (Bool-cases answer.0) [
        | inl e ↦ rw (e) (
            send_items_elsewhere is (sent_item send epoch key i answer.1 b) other id h
            ∙ rw (h) (omega arith))
        | inr e ↦ rw (e) (omega arith)
      ]

  batch_failure-delivered :
      (e : Entry) (code : Option String)
      → (batch_failure send epoch key e code).delivered ≡ e.delivered
  unfolding record_failure
  batch_failure-delivered e none = refl
  batch_failure-delivered e (some code) = refl

  batch_success-delivered :
      (e : Entry) (b : Batch) → (batch_success send epoch key e b).delivered ≡ e.delivered
  unfolding record_success
  batch_success-delivered e b = elim (Bool-cases (leb 1 b.sent_here)) [
    | inl h ↦ rw (h) refl
    | inr h ↦ rw (h) refl
  ]

  batch_entry-delivered :
      (e : Entry) (b : Batch) → (batch_entry send epoch key e b).delivered ≡ b.delivered
  batch_entry-delivered e b =
      batch_failure-delivered
        (batch_success send epoch key (record e { delivered = b.delivered }) b) b.failure
      ∙ batch_success-delivered (record e { delivered = b.delivered }) b

  serve_items-Accounts :
      (identified is : List Item) (e : Entry) (log : List Sending)
      → Accounts v key
          (λ id. occurrences id is)
          e.delivered
          log
          (serve_items send epoch key identified is e log).0.delivered
          (serve_items send epoch key identified is e log).1
  unfolding serve_items
  serve_items-Accounts identified is e log id =
      rw (batch_entry-delivered _ _) (send_items-Accounts is (first_batch send epoch key e log) id)

  digest-Grows :
      (before most : ℕ) {old new seen_old seen_new : Bool}
      → new ≡ (old || ltb 0 most)
      → seen_new ≡ (seen_old || ltb 0 most)
      → Grows before (most + before) most old new seen_old seen_new
  digest-Grows before most h h' = record {
    le = omega arith;
    bound = omega arith;
    recorded = ground (arith, h);
    visible = ground (arith, h');
  }

  serve_digest-Accounts :
      (is : List Item) (e : Entry) (log : List Sending)
      → Accounts v key
          (λ id. occurrences id is)
          e.delivered
          log
          (serve_digest send epoch key is e log).0.delivered
          (serve_digest send epoch key is e log).1
  unfolding serve_digest record_success record_failure
  serve_digest-Accounts is e log id =
      elim (Bool-cases (send key (digest_message is) (length log)).0) [
        | inl ok ↦
            rw (ok, eq_refl key)
              (digest-Grows (sends key id log) (occurrences id is)
                (is_delivered-set_all (present epoch) is e.delivered id)
                (is_delivered-set_all v is e.delivered id))
        | inr bad ↦ rw (bad) (Grows-same _ _ _ _ _ (omega arith))
      ]

  pub serve_new-Accounts :
      (max_per_run : ℕ) (identified is : List Item) (e : Entry) (log : List Sending)
      → Accounts v key
          (λ id. occurrences id is)
          e.delivered
          log
          (serve_new send epoch key max_per_run identified is e log).0.delivered
          (serve_new send epoch key max_per_run identified is e log).1
  unfolding serve_new
  serve_new-Accounts max_per_run identified [] e log id = Grows-refl _ 0 _ _
  serve_new-Accounts max_per_run identified (i ∷ is) e log id =
      elim (Bool-cases (in_backoff send epoch key e)) [
        | inl wait ↦ rw (wait) (Grows-refl _ _ _ _)
        | inr go ↦ elim (Bool-cases (ltb max_per_run (length (i ∷ is)))) [
          | inl many ↦ rw (go, many) (serve_digest-Accounts (i ∷ is) e log id)
          | inr few ↦ rw (go, few) (serve_items-Accounts identified (i ∷ is) e log id)
        ]
      ]

  serve_digest_elsewhere :
      (is : List Item) (e : Entry) (log : List Sending) (other id : String)
      → (key == other) ≡ false
      → sends other id (serve_digest send epoch key is e log).1 ≡ sends other id log
  unfolding serve_digest
  serve_digest_elsewhere is e log other id h =
      elim (Bool-cases (send key (digest_message is) (length log)).0) [
        | inl ok ↦ rw (ok, h) (omega arith)
        | inr bad ↦ rw (bad) (omega arith)
      ]

  pub serve_new_elsewhere :
      (max_per_run : ℕ) (identified is : List Item) (e : Entry) (log : List Sending)
      (other id : String)
      → (key == other) ≡ false
      → sends other id (serve_new send epoch key max_per_run identified is e log).1
        ≡ sends other id log
  unfolding serve_new serve_items
  serve_new_elsewhere max_per_run identified [] e log other id h = refl
  serve_new_elsewhere max_per_run identified (i ∷ is) e log other id h =
      elim (Bool-cases (in_backoff send epoch key e)) [
        | inl wait ↦ rw (wait) refl
        | inr go ↦ elim (Bool-cases (ltb max_per_run (length (i ∷ is)))) [
          | inl many ↦ rw (go, many) (serve_digest_elsewhere (i ∷ is) e log other id h)
          | inr few ↦ rw (go, few) (send_items_elsewhere (i ∷ is) _ other id h)
        ]
      ]
