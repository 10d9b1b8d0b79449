-- ===== src/Build/Types.antt =====
-- The data of iroh-nix/src/build.rs.
use iroh_nix.Support.{ℕ, ◌*◌, ◌^◌, Option, List, Bytes, eq_nat, eq_bytes}
use iroh_nix.Support.Maps.{Map}

-- `JobId(u64)` and `DrvHash([u8; 32])`
abbrev pub JobId : Type 0
JobId = ℕ

abbrev pub DrvHash : Type 0
DrvHash = Bytes

pub record InputPath : Type 0 where
  pub store_path : Bytes
  pub blake3 : Bytes

pub record BuildJob : Type 0 where
  pub id : JobId
  pub drv_hash : DrvHash
  pub drv_path : Bytes
  pub system_features : List Bytes
  pub outputs : List Bytes
  pub input_paths : List InputPath
  pub submitted_at : ℕ

pub record LeasedJob (EndpointId : Type 0) : Type 0 where
  pub job : BuildJob
  pub builder : EndpointId
  pub leased_at : ℕ
  pub last_heartbeat : ℕ
  pub status : Bytes

pub record BuildOutput : Type 0 where
  pub store_path : Bytes
  pub blake3 : Bytes
  pub sha256 : Bytes
  pub nar_size : ℕ

pub record BuildResult : Type 0 where
  pub job_id : JobId
  pub drv_hash : DrvHash
  pub builder : Bytes
  pub outputs : List BuildOutput
  pub signature_r : Bytes
  pub signature_s : Bytes

pub data JobOutcome (EndpointId : Type 0) : Type 0 where
  completed : BuildResult → JobOutcome EndpointId
  failed : EndpointId → Bytes → JobOutcome EndpointId

pub record LogEntry : Type 0 where
  pub job_id : ℕ
  pub payload : Bytes
  pub stream : ℕ

-- `log_subscribers` holds the sending ends of channels, of the foreign type `Sender`.
pub record BuildQueue (EndpointId Sender : Type 0) : Type 0 where
  pub our_id : EndpointId
  pub next_job_id : ℕ
  pub pending : List BuildJob
  pub leased : Map JobId (LeasedJob EndpointId)
  pub finished : Map DrvHash (JobOutcome EndpointId)
  pub pending_fetch : List BuildResult
  pub needed_features : Option (List Bytes)
  pub log_subscribers : Map ℕ (List Sender)

-- 60 seconds
abbrev pub job_lease_timeout : ℕ
job_lease_timeout = 60 * 10 ^ 9

pub record QueueStats : Type 0 where
  pub pending_count : ℕ
  pub leased_count : ℕ
  pub completed_count : ℕ
