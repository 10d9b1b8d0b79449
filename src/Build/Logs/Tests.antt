-- ===== src/Build/Logs/Tests.antt =====
-- A run of the log subscribers of iroh-nix/src/build.rs.
use iroh_nix.Support.{ℕ, zero, suc, ◌≡◌, true, false, Option, none, some, codes, eq_nat, eq_bytes}
use iroh_nix.Support.Maps.{lookup}
use iroh_nix.Build.Types.{LogEntry, BuildQueue}
use iroh_nix.Build.Queue.Example.{leased_queue}
use iroh_nix.Build.Logs.{subscribe_logs, subscribe_all_logs, broadcast_log}
use iroh_nix.Build.Logs.Broadcast.{send_some, broadcast_log_lem}

-- A channel with room for as many entries.
abbrev room : ℕ → LogEntry → Option ℕ
room zero entry = none
room (suc n) entry = some n

abbrev subscribed : BuildQueue ℕ ℕ
subscribed = subscribe_all_logs 5 (subscribe_logs 0 (subscribe_logs 2 leased_queue 2) 2)

abbrev line : LogEntry
line = record { job_id = 2; payload = codes "hello"; stream = 1 }

broadcast_log_lem_example :
    lookup 2 (broadcast_log room subscribed 2 (codes "hello") 1).log_subscribers
    ≡ send_some room line false (send_some room line true (lookup 2 subscribed.log_subscribers))
broadcast_log_lem_example = broadcast_log_lem room subscribed 2 (codes "hello") 1 2
