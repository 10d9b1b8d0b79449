-- ===== src/Builder.antt =====
-- iroh-nix/src/builder.rs, with the messages of iroh-nix/src/protocol.rs: what the requester does
-- with a builder's request. The builder's side (processes and sockets) is not modelled.
pub mod Requests
pub mod Stream
pub mod Conversation
pub mod Validity
pub mod Worker
pub mod Leases
pub mod Recorded
mod Tests
mod WorkerTests
use iroh_nix.Support.{
  ℕ, Bool, not, Option, none, some, List, [], ◌∷◌, map, if◌then◌else◌, Bytes, codes, Eq, ◌==◌,
  eq_nat, eq_bytes,
}
use iroh_nix.Support.Maps.{Map, lookup}
use iroh_nix.Build.Types.{
  JobId, DrvHash, InputPath, BuildJob, LeasedJob, BuildOutput, BuildResult, BuildQueue, LogEntry,
}
use iroh_nix.Build.Queue.{pull, heartbeat, complete, fail}
use iroh_nix.Build.Logs.{broadcast_log}

pub record BuildOutputProto : Type 0 where
  pub store_path : Bytes
  pub blake3 : Bytes
  pub sha256 : Bytes
  pub nar_size : ℕ

pub record InputPathProto : Type 0 where
  pub store_path : Bytes
  pub blake3 : Bytes

-- A variant's fields in the order of the source: `Pull { system_features, stream_logs }`,
-- `Heartbeat { job_id, status }`, `BuildLog { job_id, data, stream }`,
-- `Complete { job_id, outputs, signature_r, signature_s }`, `Fail { job_id, error }`.
pub data BuildQueueRequest : Type 0 where
  pull_request : List Bytes → Bool → BuildQueueRequest
  heartbeat_request : ℕ → Bytes → BuildQueueRequest
  build_log : ℕ → Bytes → ℕ → BuildQueueRequest
  complete_request : ℕ → List BuildOutputProto → Bytes → Bytes → BuildQueueRequest
  fail_request : ℕ → Bytes → BuildQueueRequest

-- `Job { job_id, drv_hash, drv_path, outputs, input_paths }`, …, `Error { message }`.
pub data BuildQueueResponse : Type 0 where
  job : ℕ → Bytes → Bytes → List Bytes → List InputPathProto → BuildQueueResponse
  no_job heartbeat_ack complete_ack fail_ack log_ack : BuildQueueResponse
  error : Bytes → BuildQueueResponse

unfoldable pub to_output : BuildOutputProto → BuildOutput
to_output o = record {
  store_path = o.store_path;
  blake3 = o.blake3;
  sha256 = o.sha256;
  nar_size = o.nar_size;
}

unfoldable pub to_input_proto : InputPath → InputPathProto
to_input_proto ip = record { store_path = ip.store_path; blake3 = ip.blake3 }

unfoldable pub job_response : BuildJob → BuildQueueResponse
job_response j = job j.id j.drv_hash j.drv_path j.outputs (map to_input_proto j.input_paths)

module _ {EndpointId : Type 0} where
  -- `list_leased().iter().find(|(id, _)| id.0 == job_id)`
  unfoldable pub find_leased : ℕ → Map JobId (LeasedJob EndpointId) → Option (LeasedJob EndpointId)
  find_leased job_id [] = none
  find_leased job_id ((id, l) ∷ m) = if id == job_id then some l else find_leased job_id m

module _ {EndpointId : Type 0} (as_bytes : EndpointId → Bytes) where
  -- The `BuildResult` that `Complete` records for a lease.
  unfoldable pub reported :
      LeasedJob EndpointId → ℕ → EndpointId → List BuildOutputProto → Bytes → Bytes → BuildResult
  unfolding to_output
  reported l job_id builder_id outputs signature_r signature_s = record {
    job_id = job_id;
    drv_hash = l.job.drv_hash;
    builder = as_bytes builder_id;
    outputs = map to_output outputs;
    signature_r = signature_r;
    signature_s = signature_s;
  }

module _ {EndpointId Sender : Type 0} ⦃e : Eq EndpointId⦄ (as_bytes : EndpointId → Bytes)
    (try_send : Sender → LogEntry → Option Sender) where
  answer_complete :
      BuildQueue EndpointId Sender × Bool → BuildQueue EndpointId Sender × BuildQueueResponse
  answer_complete (q, done) =
      (q, if done then complete_ack else error (codes "failed to complete job"))

  unfoldable pub handle_build_queue_request :
      ℕ
      → BuildQueue EndpointId Sender
      → EndpointId
      → BuildQueueRequest
      → BuildQueue EndpointId Sender × BuildQueueResponse
  unfolding answer_complete find_leased job_response
  handle_build_queue_request now q builder_id (pull_request system_features stream_logs) =
      let (q', r) = pull now q builder_id system_features in
      (q', elim r [ none ↦ no_job | some j ↦ job_response j ])
  handle_build_queue_request now q builder_id (heartbeat_request job_id status) =
      let (q', known) = heartbeat now q job_id builder_id status in
      (q', if known then heartbeat_ack else error (codes "invalid job or builder"))
  handle_build_queue_request now q builder_id
        (complete_request job_id outputs signature_r signature_s) =
      elim (find_leased job_id q.leased) [
        | none ↦ (q, error (codes "job not found"))
        | some l ↦ answer_complete (
            complete q job_id builder_id
              (reported as_bytes l job_id builder_id outputs signature_r signature_s))
      ]
  handle_build_queue_request now q builder_id (fail_request job_id message) =
      let (q', known) = fail q job_id builder_id message in
      (q', if known then fail_ack else error (codes "invalid job or builder"))
  handle_build_queue_request now q builder_id (build_log job_id payload stream) =
      (broadcast_log try_send q job_id payload stream, log_ack)
