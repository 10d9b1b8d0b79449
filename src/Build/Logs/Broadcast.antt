-- ===== src/Build/Logs/Broadcast.antt =====
-- Which log subscribers of iroh-nix/src/build.rs an entry is sent to, and which are left.
use iroh_nix.Support.{
  ℕ, ◌≡◌, refl, ap, ◌∙◌, inl, inr, Bool, Option, none, some, List, [], ◌∷◌, arith, if◌then◌else◌,
  Option-cases, Bytes, ◌==◌, eq_nat, eq_bytes,
}
use iroh_nix.Support.Maps.{Map, lookup, lookup-insert}
use iroh_nix.Build.Types.{LogEntry, BuildQueue}
use iroh_nix.Build.Logs.{send_all, send_to, broadcast_log}

module _ {Sender : Type 0} (try_send : Sender → LogEntry → Option Sender) where
  -- The senders, each as it is after its channel has taken the entry; one whose channel has not is left out.
  abbrev pub takers : LogEntry → List Sender → List Sender
  takers entry [] = []
  takers entry (tx ∷ txs) =
      let rest = takers entry txs in
      elim (try_send tx entry) [ none ↦ rest | some tx' ↦ tx' ∷ rest ]

  send_all-takers :
      (entry : LogEntry) (txs : List Sender) → send_all try_send entry txs ≡ takers entry txs
  unfolding send_all
  send_all-takers entry [] = refl
  send_all-takers entry (tx ∷ txs) = ground (arith, send_all-takers entry txs)

  abbrev pub send_some : LogEntry → Bool → Option (List Sender) → Option (List Sender)
  send_some entry due none = none
  send_some entry due (some txs) = some (if due then takers entry txs else txs)

  send_to_lem :
      (entry : LogEntry) (to key : ℕ) (subs : Map ℕ (List Sender))
      → lookup key (send_to try_send entry to subs) ≡ send_some entry (to == key) (lookup key subs)
  unfolding send_to
  send_to_lem entry to key subs = elim (Option-cases (lookup to subs)) [
    | inl nobody ↦ ground (arith, nobody)
    | inr (txs, there) ↦ ground (
      arith,
      there,
      send_all-takers entry txs,
      lookup-insert to key (send_all try_send entry txs) subs,
      eq_nat.beq_iff to key,
    )
  ]

module _ {EndpointId Sender : Type 0} (try_send : Sender → LogEntry → Option Sender) where
  -- A broadcast sends the entry to the subscribers of its job and then to those of job 0, which stands
  -- for all jobs: those of another job are left as they are, those of the job and of 0 are the ones
  -- whose channel took it, and an entry of job 0 is sent to the latter twice.
  pub broadcast_log_lem :
      (q : BuildQueue EndpointId Sender) (job_id : ℕ) (payload : Bytes) (stream key : ℕ)
      → lookup key (broadcast_log try_send q job_id payload stream).log_subscribers
        ≡ send_some try_send
            (record { job_id = job_id; payload = payload; stream = stream })
            (0 == key)
            (send_some try_send
              (record { job_id = job_id; payload = payload; stream = stream })
              (job_id == key)
              (lookup key q.log_subscribers))
  unfolding broadcast_log
  broadcast_log_lem q job_id payload stream key =
      let entry : LogEntry = record { job_id = job_id; payload = payload; stream = stream } in
      send_to_lem try_send entry 0 key (send_to try_send entry job_id q.log_subscribers)
      ∙ ap (send_some try_send entry (0 == key))
          (send_to_lem try_send entry job_id key q.log_subscribers)
