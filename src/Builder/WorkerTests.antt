-- ===== src/Builder/WorkerTests.antt =====
-- A job of a worker, from the lease to the report.
use iroh_nix.Support.{
  ℕ, suc, ◌+◌, ◌≡◌, refl, true, Option, some, [], ◌∷◌, Bytes, codes, bytes_eq, ◌==◌, eq_nat,
  eq_bytes, ==-refl, replicate, is_empty,
}
use iroh_nix.Support.Maps.{lookup, insert}
use iroh_nix.Error.{protocol, Result, ok, err}
use iroh_nix.Build.Types.{BuildQueue, LogEntry}
use iroh_nix.Build.Queue.{new, lease, heartbeat, complete}
use iroh_nix.Build.Logs.{broadcast_log}
use iroh_nix.Node.{inserted}
use iroh_nix.Build.Signing.{Ed25519, IsEd25519}
use iroh_nix.HashIndex.{Table, execute, insert_or_replace}
use iroh_nix.HashIndex
use iroh_nix.Builder.{handle_build_queue_request, find_leased, reported}
use iroh_nix.Builder.Worker.{
  Host, tick, status, log_line, JobContext, chain, prepare, tell, on_requester, on_index,
  fetch_dependencies, fetch_inputs, missing_paths, watch_build, built, index_outputs, index_output,
  report, complete_req, acknowledged, execute_job_with_heartbeat,
}
use iroh_nix.Builder.Leases.{Requester, leased_hash, with_requester}
use iroh_nix.Builder.Recorded.{Recorded, execute_job_with_heartbeat-Recorded}

abbrev endpoint_bytes : ℕ → Bytes
endpoint_bytes n = n ∷ []

-- A channel that takes every entry.
abbrev channel : ℕ → LogEntry → Option ℕ
channel n entry = some (suc n)

-- A stand-in for Ed25519: the key is its public bytes, and every message has one signature.
abbrev ed25519 : Ed25519 Bytes Bytes
ed25519 = record {
  public = λ k. k;
  sign = λ k message. replicate 64 3;
  from_bytes = λ k. some k;
  verify = λ k message signature. signature == replicate 64 3;
}

ed25519-IsEd25519 : IsEd25519 ed25519
ed25519-IsEd25519 = record {
  key_of = λ k. k;
  public_back = λ k. refl;
  signature_length = λ k message. refl;
  verified = λ k message. ==-refl {A = Bytes} (replicate 64 3);
}

abbrev host : Host
host = record {
  exists = λ path. true;
  fetch_nar = λ blake3. err (protocol []);
  restore = λ path nar. ok tt;
  query = λ path. err (protocol []);
  serialize_path =
      λ path. ok (record { blake3 = replicate 32 1; sha256 = replicate 32 2; nar_size = 9 });
  run_build = λ logs path id. record {
    events = tick ∷ status (codes "building") ∷ log_line 2 (codes "make") 1 ∷ tick ∷ [];
    outcome = some (ok (codes "/nix/store/out" ∷ []));
  };
  stores = true;
  to_string = λ e. [];
}

abbrev ctx : JobContext
ctx = record {
  job_id = 2;
  drv_hash = codes "b.drv";
  drv_path = codes "b.drv";
  input_paths = record { store_path = codes "/nix/store/in"; blake3 = [] } ∷ [];
  stream_logs = true;
}

-- Job 2 is leased to builder 1.
abbrev leased_queue : BuildQueue ℕ ℕ
leased_queue = record (new 7) {
  next_job_id = 3;
  leased =
      (
        2,
        lease 12 1 (record {
          id = 2;
          drv_hash = codes "b.drv";
          drv_path = codes "b.drv";
          system_features = [];
          outputs = [];
          input_paths = [];
          submitted_at = 11;
        }),
      )
      ∷ [];
}

abbrev start : Requester ℕ ℕ × Table
start = ((leased_queue, 0), [])

abbrev ran : (Requester ℕ ℕ × Table) × Result (Unit {0})
ran =
    execute_job_with_heartbeat ed25519 (1 ∷ []) host
      (with_requester endpoint_bytes channel (λ turn. 20 + turn) 1) ctx start

leased : leased_hash ctx.job_id start.0 ≡ some ctx.drv_hash
unfolding new lease is_empty insert lookup bytes_eq
leased = refl

succeeds : ran ≡ ((ran.0.0, ran.0.1), ok tt)
unfolding new lease is_empty insert lookup bytes_eq execute_job_with_heartbeat chain prepare tell
    on_requester on_index fetch_dependencies fetch_inputs missing_paths watch_build built
    index_outputs index_output inserted HashIndex.insert report complete_req acknowledged
    with_requester handle_build_queue_request heartbeat complete find_leased reported broadcast_log
    execute insert_or_replace
succeeds = refl

execute_job_with_heartbeat-Recorded_example :
    Recorded endpoint_bytes channel (λ turn. 20 + turn) 1 ed25519 (1 ∷ []) (codes "b.drv") 2 ran.0.0
execute_job_with_heartbeat-Recorded_example =
    execute_job_with_heartbeat-Recorded endpoint_bytes channel (λ turn. 20 + turn) 1 ed25519
      (1 ∷ []) host ctx start.0 ran.0.0 start.1 ran.0.1 ed25519-IsEd25519 refl leased succeeds
