-- ===== src/Relay/Accounts/Run.antt =====
-- The loop over the targets.
use mathlib.Core.Path.{subst}
use hermes_gpt.Prelude.{
  ℕ, String, false, List, [], ◌∷◌, ◌≡◌, sym, Bool, if◌then◌else◌, arith, ◌==◌, eq_iff, Bool-cases,
  inl, inr,
}
use hermes_gpt.Relay.{Delivery, Entry, State, target_entry}
use hermes_gpt.Relay.Inbox.{Item}
use hermes_gpt.Relay.Run.{serve_one, serve_targets}
use hermes_gpt.Relay.Target.{is_delivered, Send, Sending, new_items, serve_target}
use hermes_gpt.Relay.Accounts.{
  occurrences, open_to, View, Grows, Grows-refl, Grows-same, sends, Accounts, occurrences-new_items,
}
use hermes_gpt.Relay.Entries.{set_entry_here, set_entry_elsewhere}
use hermes_gpt.Relay.Accounts.Target.{serve_new-Accounts, serve_new_elsewhere}

abbrev pub delivered_to : State → String → List Delivery
delivered_to state key = (target_entry state key).delivered

-- One target, then others.
Grows-then :
    {before mid after : ℕ} {old now new seen_old seen_now seen_new : Bool} (most : ℕ)
    → Grows before mid (if old then 0 else most) old now seen_old seen_now
    → Grows mid after (if now then 0 else most) now new seen_now seen_new
    → Grows before after (if old then 0 else most) old new seen_old seen_new
Grows-then most g g' = record {
  le = omega (arith, g.le, g'.le);
  bound = ground (arith, g.le, g'.le, g.bound, g'.bound, g.recorded);
  recorded = ground (arith, g.le, g'.le, g.recorded, g'.recorded);
  visible = ground (arith, g.le, g'.le, g.visible, g'.visible);
}

module _ {epoch : ℕ} (v : View epoch) (send : Send) (max_per_run : ℕ) (identified : List Item) where
  serve_one_here :
      (key : String) (state : State) (log : List Sending)
      → Accounts v key
          (open_to identified (delivered_to state key))
          (delivered_to state key)
          log
          (delivered_to (serve_one send epoch max_per_run identified key state log).state key)
          (serve_one send epoch max_per_run identified key state log).log
  unfolding serve_one serve_target
  serve_one_here key state log id =
      let e = target_entry state key in
      let is = new_items e.delivered identified in
      let done = serve_target send epoch key max_per_run identified state log in
      subst
        (λ (x : Entry).
          Grows (sends key id log) (sends key id done.1) (open_to identified e.delivered id)
            (is_delivered e.delivered id) (is_delivered x.delivered id)
            (is_delivered (v.seen e.delivered) id) (is_delivered (v.seen x.delivered) id))
        (sym (set_entry_here state key done.0))
        (subst
          (λ n.
            Grows (sends key id log) (sends key id done.1) n (is_delivered e.delivered id)
              (is_delivered done.0.delivered id) (is_delivered (v.seen e.delivered) id)
              (is_delivered (v.seen done.0.delivered) id))
          (occurrences-new_items e.delivered identified id)
          (serve_new-Accounts v send key max_per_run identified is e log id))

  serve_one_elsewhere :
      (key : String) (state : State) (log : List Sending) (other : String)
      → (key == other) ≡ false
      → Accounts v other
          (open_to identified (delivered_to state other))
          (delivered_to state other)
          log
          (delivered_to (serve_one send epoch max_per_run identified key state log).state other)
          (serve_one send epoch max_per_run identified key state log).log
  unfolding serve_one serve_target
  serve_one_elsewhere key state log other h id =
      let e = target_entry state key in
      let is = new_items e.delivered identified in
      let done = serve_target send epoch key max_per_run identified state log in
      let ds = delivered_to state other in
      subst
        (λ (x : Entry).
          Grows (sends other id log) (sends other id done.1) (open_to identified ds id)
            (is_delivered ds id) (is_delivered x.delivered id) (is_delivered (v.seen ds) id)
            (is_delivered (v.seen x.delivered) id))
        (sym (set_entry_elsewhere state key done.0 other h))
        (Grows-same _ _ _ _ _
          (serve_new_elsewhere v send key max_per_run identified is e log other id h))

  serve_one-Accounts :
      (key : String) (state : State) (log : List Sending) (other : String)
      → Accounts v other
          (open_to identified (delivered_to state other))
          (delivered_to state other)
          log
          (delivered_to (serve_one send epoch max_per_run identified key state log).state other)
          (serve_one send epoch max_per_run identified key state log).log
  serve_one-Accounts key state log other = elim (Bool-cases (key == other)) [
    | inl same ↦
        subst
          (λ k.
            Accounts v k (open_to identified (delivered_to state k)) (delivered_to state k) log
              (delivered_to (serve_one send epoch max_per_run identified key state log).state k)
              (serve_one send epoch max_per_run identified key state log).log)
          ((eq_iff key other).0 same) (serve_one_here key state log)
    | inr diff ↦ serve_one_elsewhere key state log other diff
  ]

  pub serve_targets-Accounts :
      (keys : List String) (state : State) (log : List Sending) (key : String)
      → Accounts v key
          (open_to identified (delivered_to state key))
          (delivered_to state key)
          log
          (delivered_to (serve_targets send epoch max_per_run identified keys state log).state key)
          (serve_targets send epoch max_per_run identified keys state log).log
  unfolding serve_targets
  serve_targets-Accounts [] state log key id = Grows-refl _ _ _ _
  serve_targets-Accounts (k ∷ ks) state log key id =
      let first = serve_one send epoch max_per_run identified k state log in
      Grows-then (occurrences id identified) (serve_one-Accounts k state log key id)
        (serve_targets-Accounts ks first.state first.log key id)
