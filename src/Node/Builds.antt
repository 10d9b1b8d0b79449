-- ===== src/Node/Builds.antt =====
-- iroh-nix/src/node.rs: what a node queues for builders. The node has a queue only with its network on, and
-- the announcement by gossip is a parameter.
use iroh_nix.Support.{
  ℕ, Bool, true, false, Option, none, some, List, Bytes, codes, eq_nat, eq_bytes,
}
use iroh_nix.Error.{protocol, Result, ok, err, panic}
use iroh_nix.Build.Types.{JobId, DrvHash, InputPath, BuildQueue}
use iroh_nix.Build.Queue.{push}

-- `gossip.announce_need_builder`, where gossip is enabled
abbrev pub Announce : Type 0
Announce = Option (List Bytes → Result (Unit {0}))

unfoldable pub announced : Announce → List Bytes → JobId × Bool → Result (JobId × Bool)
announced none system_features (job_id, should_announce) = ok (job_id, should_announce)
announced (some announce) system_features (job_id, false) = ok (job_id, false)
announced (some announce) system_features (job_id, true) = elim (announce system_features) [
  | ok done ↦ ok (job_id, true)
  | err e ↦ err e
  | panic ↦ panic
]

module _ {EndpointId Sender : Type 0} (blake3_hash : Bytes → DrvHash) (announce : Announce) where
  -- The queue that is left, and the result.
  unfoldable pub push_build :
      ℕ
      → Option (BuildQueue EndpointId Sender)
      → Bytes
      → List Bytes
      → List Bytes
      → List InputPath
      → Option (BuildQueue EndpointId Sender) × Result (JobId × Bool)
  push_build now none drv_path system_features outputs input_paths =
      (none, err (protocol (codes "Build queue not enabled")))
  push_build now (some q) drv_path system_features outputs input_paths =
      let (next, pushed) = push blake3_hash now q drv_path system_features outputs input_paths in
      (some next, announced announce system_features pushed)
