-- ===== src/Relay/Run.antt =====
-- operator_attention_delivery.py: run_once.
use hermes_gpt.Prelude.{
  ℕ, ◌+◌, String, Bool, Option, none, some, List, [], ◌∷◌, ◌++◌, ◌==◌, length, if◌then◌else◌,
}
use hermes_gpt.Relay.{State, prune, set_entry}
use hermes_gpt.Relay.Inbox.{InboxItem, Item, Skipped, identify}
use hermes_gpt.Relay.Target.{Send, Sending, TargetReport, serve_target}

-- The state, the log and the reports of the loop over the targets.
pub record Round : Type 0 where
  pub state : State
  pub log : List Sending
  pub reports : List TargetReport

unfoldable pub serve_one : Send → ℕ → ℕ → List Item → String → State → List Sending → Round
unfolding serve_target
serve_one send epoch max_per_run identified key state log =
    let done = serve_target send epoch key max_per_run identified state log in
    record { state = set_entry state key done.0; log = done.1; reports = done.2 ∷ [] }

unfoldable pub serve_targets : Send → ℕ → ℕ → List Item → List String → State → List Sending → Round
serve_targets send epoch max_per_run identified [] state log = record {
  state = state;
  log = log;
  reports = [];
}
serve_targets send epoch max_per_run identified (key ∷ keys) state log =
    let first = serve_one send epoch max_per_run identified key state log in
    let rest = serve_targets send epoch max_per_run identified keys first.state first.log in
    record rest { reports = first.reports ++ rest.reports }

-- What run_once takes from load_config: the targets' keys, and the limit for a run.
pub record Config : Type 0 where
  pub targets : List String
  pub max_per_run : ℕ

-- What build_inbox returns.
pub record OwnerInbox : Type 0 where
  pub complete : Bool
  pub items : List (Option InboxItem)

-- The surroundings of a run: the environment variables, the lock, the file of the state, the inbox,
-- the backends and the clock. `none` is a configuration, a state or an inbox that cannot be read.
pub record Env : Type 0 where
  pub enabled : Bool
  pub config : Option Config
  pub lock_free : Bool
  pub stored : Option State
  pub inbox : Option OwnerInbox
  pub send : Send
  pub writable : Bool
  pub epoch : ℕ

pub record Payload : Type 0 where
  pub status : String
  pub complete : Bool
  pub eligible : ℕ
  pub skipped : Skipped
  pub targets : List TargetReport
  pub messages_sent : ℕ
  pub items_delivered : ℕ
  pub errors : ℕ
  pub error : Option String

pub data Outcome : Type 0 where
  disabled config_error locked : Outcome
  unavailable : String → Outcome
  finished : Payload → Outcome

-- What a run returns, the state that the file holds then, and what was sent.
pub record Finish : Type 0 where
  pub outcome : Outcome
  pub stored : Option State
  pub log : List Sending

abbrev pub sum : (TargetReport → ℕ) → List TargetReport → ℕ
sum f [] = 0
sum f (r ∷ rs) = f r + sum f rs

abbrev pub one_error : TargetReport → ℕ
one_error r = if r.status == "error" then 1 else 0

abbrev pub payload_of : Env → OwnerInbox → List Item × Skipped → List TargetReport → Payload
payload_of env inbox known reports = record {
  status = (if env.writable then "ok" else "error");
  complete = inbox.complete;
  eligible = length known.0;
  skipped = known.1;
  targets = reports;
  messages_sent = sum (λ r. r.messages) reports;
  items_delivered = sum (λ r. r.items_delivered) reports;
  errors = sum one_error reports;
  error = (if env.writable then none else some "STATE_WRITE_FAILED");
}

-- The end of a run, with _save_state.
abbrev pub finish_run : Env → State → OwnerInbox → List Item × Skipped → Round → Finish
finish_run env before inbox known round = record {
  outcome = finished (payload_of env inbox known round.reports);
  stored = (if env.writable then some round.state else some before);
  log = round.log;
}

unfoldable pub run_round : Env → Config → State → OwnerInbox → List Item × Skipped → Finish
unfolding serve_targets
run_round env config state inbox known = finish_run env state inbox known (
    serve_targets env.send env.epoch config.max_per_run known.0 config.targets
      (prune state env.epoch) [])

abbrev pub quiet : Outcome → Option State → Finish
quiet outcome stored = record { outcome = outcome; stored = stored; log = [] }

abbrev run_inbox : Env → Config → State → Option OwnerInbox → Finish
run_inbox env config state none = quiet (unavailable "INBOX_UNAVAILABLE") (some state)
run_inbox env config state (some inbox) =
    run_round env config state inbox (identify env.epoch inbox.items)

abbrev run_state : Env → Config → Option State → Finish
run_state env config none = quiet (unavailable "STATE_UNREADABLE") none
run_state env config (some state) = run_inbox env config state env.inbox

abbrev run_config : Env → Option Config → Finish
run_config env none = quiet config_error env.stored
run_config env (some config) =
    if env.lock_free then run_state env config env.stored else quiet locked env.stored

-- run_once
unfoldable pub run_once : Env → Finish
unfolding run_round
run_once env = if env.enabled then run_config env env.config else quiet disabled env.stored
