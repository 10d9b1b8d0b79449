-- ===== src/Build/Logs.antt =====
-- The log subscribers of `BuildQueue` in iroh-nix/src/build.rs. A channel's sending end is of the
-- foreign type `Sender`: `try_send` is `none` where tokio's `try_send` fails, and otherwise the end
-- with the entry in its channel.
pub mod Broadcast
mod Tests
use iroh_nix.Support.{
  ℕ, Bool, not, Option, none, some, List, [], ◌∷◌, ◌++◌, Bytes, eq_nat, eq_bytes, keep_if,
}
use iroh_nix.Support.Maps.{Map, lookup, insert}
use iroh_nix.Build.Types.{LogEntry, BuildQueue}

module _ {EndpointId Sender : Type 0} where
  -- `tx` is the sending end of the new channel.
  unfoldable pub subscribe_logs :
      Sender → BuildQueue EndpointId Sender → ℕ → BuildQueue EndpointId Sender
  subscribe_logs tx q job_id = record q {
    log_subscribers = elim (lookup job_id q.log_subscribers) [
      | none ↦ insert job_id (tx ∷ []) q.log_subscribers
      | some txs ↦ insert job_id (txs ++ tx ∷ []) q.log_subscribers
    ];
  }

  unfoldable pub subscribe_all_logs :
      Sender → BuildQueue EndpointId Sender → BuildQueue EndpointId Sender
  unfolding subscribe_logs
  subscribe_all_logs tx q = subscribe_logs tx q 0

module _ {Sender : Type 0} (try_send : Sender → LogEntry → Option Sender) where
  -- `subscribers.retain(|tx| tx.try_send(entry.clone()).is_ok())`
  unfoldable pub send_all : LogEntry → List Sender → List Sender
  send_all entry [] = []
  send_all entry (tx ∷ txs) =
      let rest = send_all entry txs in
      elim (try_send tx entry) [ none ↦ rest | some tx' ↦ tx' ∷ rest ]

  unfoldable pub send_to : LogEntry → ℕ → Map ℕ (List Sender) → Map ℕ (List Sender)
  unfolding send_all
  send_to entry key subs = elim (lookup key subs) [
    | none ↦ subs
    | some txs ↦ insert key (send_all entry txs) subs
  ]

module _ {EndpointId Sender : Type 0} (try_send : Sender → LogEntry → Option Sender) where
  unfoldable pub broadcast_log :
      BuildQueue EndpointId Sender → ℕ → Bytes → ℕ → BuildQueue EndpointId Sender
  unfolding send_to
  broadcast_log q job_id payload stream =
      let entry : LogEntry = record { job_id = job_id; payload = payload; stream = stream } in
      record q {
        log_subscribers =
            send_to try_send entry 0 (send_to try_send entry job_id q.log_subscribers);
      }

module _ {Sender : Type 0} (is_closed : Sender → Bool) where
  -- The closure of `cleanup_log_subscribers`: the open ends of each key, and the keys that have some.
  unfoldable pub open_subscribers : Map ℕ (List Sender) → Map ℕ (List Sender)
  open_subscribers [] = []
  open_subscribers ((k, txs) ∷ subs) =
      let left = keep_if (λ tx. not (is_closed tx)) txs in
      let rest = open_subscribers subs in
      elim left [ [] ↦ rest | tx ∷ more ↦ (k, tx ∷ more) ∷ rest ]

module _ {EndpointId Sender : Type 0} (is_closed : Sender → Bool) where
  unfoldable pub cleanup_log_subscribers :
      BuildQueue EndpointId Sender → BuildQueue EndpointId Sender
  unfolding open_subscribers
  cleanup_log_subscribers q = record q {
    log_subscribers = open_subscribers is_closed q.log_subscribers;
  }
