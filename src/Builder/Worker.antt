-- ===== src/Builder/Worker.antt =====
-- The builder's side of iroh-nix/src/builder.rs: a worker that pulls jobs from a requester, builds them and
-- reports them. Foreign are the processes of Nix, the network and the clock: parameters. An exchange is a
-- `send_request` with the `recv_response` behind it; the worker's state is the requester behind the stream,
-- and its own index.
use iroh_nix.Support.{
  ℕ, Bool, true, false, not, Option, none, some, List, [], ◌∷◌, map, if◌then◌else◌, Bytes, codes,
  eq_nat, eq_bytes, keep_if, is_empty,
}
use iroh_nix.Error.{Error, protocol, Result, ok, err, panic, ◌>>=◌}
use iroh_nix.Build.Types.{DrvHash, BuildOutput, BuildResult}
use iroh_nix.Build.Signing.{Ed25519, sign_build_result}
use iroh_nix.HashIndex.Entries.{HashEntry}
use iroh_nix.HashIndex.{Table, insert}
use iroh_nix.Nar.Hashing.{NarInfo}
use iroh_nix.NixInfo.{NixPathInfo}
use iroh_nix.Transfer.{NarResponseHeader}
use iroh_nix.Node.{inserted, known_references}
use iroh_nix.Builder.{
  BuildOutputProto, InputPathProto, BuildQueueRequest, pull_request, heartbeat_request, build_log,
  complete_request, fail_request, BuildQueueResponse, job, no_job, complete_ack, error,
}

-- What `select!` takes up while the build runs.
pub data BuildEvent : Type 0 where
  tick : BuildEvent
  status : Bytes → BuildEvent
  log_line : ℕ → Bytes → ℕ → BuildEvent

-- A build: what comes up until it ends, and its outcome, where its task has not panicked.
pub record BuildRun : Type 0 where
  pub events : List BuildEvent
  pub outcome : Option (Result (List Bytes))

pub record JobContext : Type 0 where
  pub job_id : ℕ
  pub drv_hash : DrvHash
  pub drv_path : Bytes
  pub input_paths : List InputPathProto
  pub stream_logs : Bool

pub record BuilderConfig : Type 0 where
  pub system_features : List Bytes
  pub stream_logs : Bool

-- `exists`, the fetch of a NAR from the requester, `nix-store --restore`, `nix path-info`,
-- `serialize_path_to_writer`, the two ways to run a build, and whether SQLite carries out an insertion.
pub record Host : Type 0 where
  pub exists : Bytes → Bool
  pub fetch_nar : Bytes → Result (NarResponseHeader × Bytes)
  pub restore : Bytes → Bytes → Result (Unit {0})
  pub query : Bytes → Result NixPathInfo
  pub serialize_path : Bytes → Result NarInfo
  pub run_build : Bool → Bytes → ℕ → BuildRun
  pub stores : Bool
  pub to_string : Error → Bytes

abbrev pub Exchange : Type 0 → Type 0
Exchange Requester = BuildQueueRequest → Requester → Requester × Result BuildQueueResponse

-- One step of the worker behind another, as by `?`.
unfoldable pub chain : {S A B : Type 0} → S × Result A → (A → S → S × Result B) → S × Result B
chain (s, ok a) next = next a s
chain (s, err e) next = (s, err e)
chain (s, panic) next = (s, panic)

module _ (host : Host) where
  unfoldable pub missing_paths : List InputPathProto → List InputPathProto
  missing_paths input_paths = keep_if (λ ip. not (host.exists ip.store_path)) input_paths

  unfoldable pub input_entry : InputPathProto → NarResponseHeader → HashEntry
  input_entry input header =
      let (references, deriver) = known_references (host.query input.store_path) in
      record {
        blake3 = input.blake3;
        sha256 = header.sha256;
        store_path = input.store_path;
        nar_size = header.size;
        references = references;
        deriver = deriver;
      }

  -- What a missing input is fetched to be, when it has been imported.
  unfoldable pub imported : InputPathProto → Result HashEntry
  imported input = do
    (header, nar_data) ← host.fetch_nar input.blake3
    done ← host.restore input.store_path nar_data
    ok (input_entry input header)

  unfoldable pub fetch_input : InputPathProto → Table → Table × Result (Unit {0})
  fetch_input input table = elim (imported input) [
    | ok entry ↦ inserted table (insert host.stores entry table) tt
    | err e ↦ (table, err e)
    | panic ↦ (table, panic)
  ]

  unfoldable pub fetch_inputs : List InputPathProto → Table → Table × Result (Unit {0})
  fetch_inputs [] table = (table, ok tt)
  fetch_inputs (input ∷ inputs) table =
      chain (fetch_input input table) (λ done. fetch_inputs inputs)

  unfoldable pub fetch_dependencies : List InputPathProto → Table → Table × Result (Unit {0})
  fetch_dependencies input_paths table = fetch_inputs (missing_paths input_paths) table

  unfoldable pub output_entry : Bytes → NarInfo → HashEntry
  output_entry store_path info =
      let (references, deriver) = known_references (host.query store_path) in
      record {
        blake3 = info.blake3;
        sha256 = info.sha256;
        store_path = store_path;
        nar_size = info.nar_size;
        references = references;
        deriver = deriver;
      }

  unfoldable pub build_output : Bytes → NarInfo → BuildOutput
  build_output store_path info = record {
    store_path = store_path;
    blake3 = info.blake3;
    sha256 = info.sha256;
    nar_size = info.nar_size;
  }

  unfoldable pub index_output : Bytes → Table → Table × Result BuildOutput
  index_output path table = elim (host.serialize_path path) [
    | ok info ↦
        inserted table (insert host.stores (output_entry path info) table) (build_output path info)
    | err e ↦ (table, err e)
    | panic ↦ (table, panic)
  ]

  unfoldable pub index_outputs : List Bytes → Table → Table × Result (List BuildOutput)
  index_outputs [] table = (table, ok [])
  index_outputs (path ∷ paths) table = chain (index_output path table) (λ output next.
      chain (index_outputs paths next) (λ outputs last. (last, ok (output ∷ outputs))))

unfoldable pub to_proto : BuildOutput → BuildOutputProto
to_proto o = record {
  store_path = o.store_path;
  blake3 = o.blake3;
  sha256 = o.sha256;
  nar_size = o.nar_size;
}

unfoldable pub complete_req : ℕ → BuildResult → BuildQueueRequest
complete_req job_id result =
    complete_request job_id (map to_proto result.outputs) result.signature_r result.signature_s

unfoldable pub acknowledged : BuildQueueResponse → Result (Unit {0})
acknowledged complete_ack = ok tt
acknowledged (error message) = err (protocol (codes "completion rejected: "))
acknowledged response = err (protocol (codes "unexpected response to Complete"))

module _ {Requester : Type 0} (exchange : Exchange Requester) where
  -- An exchange whose response is not looked at.
  unfoldable pub tell : BuildQueueRequest → Requester → Requester × Result (Unit {0})
  tell request s = chain (exchange request s) (λ response next. (next, ok tt))

  -- The loop of `select!`, with what comes up until the build ends.
  unfoldable pub watch_build :
      ℕ → List BuildEvent → Bytes → Requester → Requester × Result (Unit {0})
  watch_build job_id [] current_status s = (s, ok tt)
  watch_build job_id (tick ∷ events) current_status s =
      chain (tell (heartbeat_request job_id current_status) s)
        (λ done. watch_build job_id events current_status)
  watch_build job_id (status text ∷ events) current_status s = watch_build job_id events text s
  watch_build job_id (log_line id payload stream ∷ events) current_status s =
      chain (tell (build_log id payload stream) s)
        (λ done. watch_build job_id events current_status)

unfoldable pub built : Option (Result (List Bytes)) → Result (List Bytes)
built none = err (protocol (codes "build task panicked: "))
built (some outcome) = outcome

-- A step on one part of the state.
unfoldable pub on_requester : {S T A : Type 0} → (S → S × Result A) → S × T → (S × T) × Result A
on_requester f (s, t) = let (next, r) = f s in ((next, t), r)

unfoldable pub on_index : {S T A : Type 0} → (T → T × Result A) → S × T → (S × T) × Result A
on_index f (s, t) = let (next, r) = f t in ((s, next), r)

module _ {Requester : Type 0} (host : Host) (exchange : Exchange Requester) where
  unfoldable pub prepare : JobContext → Requester × Table → (Requester × Table) × Result (Unit {0})
  prepare ctx s =
      if is_empty ctx.input_paths
      then (s, ok tt)
      else chain
          (on_requester
            (tell exchange (heartbeat_request ctx.job_id (codes "fetching dependencies"))) s)
          (λ done. on_index (fetch_dependencies host ctx.input_paths))

module _ {SecretKey PublicKey Requester : Type 0} (ed25519 : Ed25519 SecretKey PublicKey)
    (secret_key : SecretKey) (exchange : Exchange Requester) where
  unfoldable pub report : JobContext → List BuildOutput → Requester → Requester × Result (Unit {0})
  report ctx outputs s =
      chain
        (exchange
          (complete_req ctx.job_id
            (sign_build_result ed25519 secret_key ctx.job_id ctx.drv_hash outputs))
          s)
        (λ response next. (next, acknowledged response))

module _ {SecretKey PublicKey Requester : Type 0} (ed25519 : Ed25519 SecretKey PublicKey)
    (secret_key : SecretKey) (host : Host) (exchange : Exchange Requester) where
  unfoldable pub execute_job_with_heartbeat :
      JobContext → Requester × Table → (Requester × Table) × Result (Unit {0})
  execute_job_with_heartbeat ctx s =
      let run = host.run_build ctx.stream_logs ctx.drv_path ctx.job_id in
      chain (prepare host exchange ctx s) (λ done s1.
        chain (on_requester (watch_build exchange ctx.job_id run.events (codes "starting")) s1)
          (λ watched s2.
            chain (s2, built run.outcome)
              (λ paths s3.
                chain (on_index (index_outputs host paths) s3)
                  (λ outputs. on_requester (report ed25519 secret_key exchange ctx outputs)))))

-- A round of the worker's loop: whether it is cancelled, and whether it has been idle for too long.
pub record Round : Type 0 where
  pub cancelled : Bool
  pub idle : Bool

unfoldable pub context : BuilderConfig → ℕ → Bytes → Bytes → List InputPathProto → JobContext
context config job_id drv_hash drv_path input_paths = record {
  job_id = job_id;
  drv_hash = drv_hash;
  drv_path = drv_path;
  input_paths = input_paths;
  stream_logs = config.stream_logs;
}

module _ {SecretKey PublicKey Requester : Type 0} (ed25519 : Ed25519 SecretKey PublicKey)
    (secret_key : SecretKey) (host : Host) (exchange : Exchange Requester)
    (config : BuilderConfig) where
  -- A failure is told to the requester; whether that succeeds is not looked at. The loop goes on at `none`.
  unfoldable pub after_job :
      ℕ → (Requester × Table) × Result (Unit {0}) → (Requester × Table) × Option (Result (Unit {0}))
  after_job job_id (s, ok done) = (s, none)
  after_job job_id ((requester, table), err e) =
      (((exchange (fail_request job_id (host.to_string e)) requester).0, table), none)
  after_job job_id (s, panic) = (s, some panic)

  unfoldable pub respond :
      Bool
      → BuildQueueResponse
      → Requester × Table
      → (Requester × Table) × Option (Result (Unit {0}))
  respond idle (job job_id drv_hash drv_path outputs input_paths) s = after_job job_id (
      execute_job_with_heartbeat ed25519 secret_key host exchange
        (context config job_id drv_hash drv_path input_paths) s)
  respond idle no_job s = (s, if idle then some (ok tt) else none)
  respond idle (error message) s = (s, some (ok tt))
  respond idle response s = (s, some (ok tt))

  unfoldable pub pulled :
      Bool
      → (Requester × Table) × Result BuildQueueResponse
      → (Requester × Table) × Option (Result (Unit {0}))
  pulled idle (s, ok response) = respond idle response s
  pulled idle (s, err e) = (s, some (err e))
  pulled idle (s, panic) = (s, some panic)

  unfoldable pub work_round :
      Round → Requester × Table → (Requester × Table) × Option (Result (Unit {0}))
  work_round round s =
      if round.cancelled
      then (s, some (ok tt))
      else pulled round.idle
          (on_requester (exchange (pull_request config.system_features config.stream_logs)) s)

  -- The loop, over the rounds that are seen; `none` where it has not ended with them.
  unfoldable pub work_rounds :
      List Round → Requester × Table → (Requester × Table) × Option (Result (Unit {0}))
  work_rounds [] s = (s, none)
  work_rounds (round ∷ rounds) s =
      let (next, ended) = work_round round s in
      elim ended [ none ↦ work_rounds rounds next | some r ↦ (next, some r) ]

  -- With the outcomes of the connection, tried again and again, and of the opening of the stream.
  unfoldable pub connect_and_work :
      Result (Unit {0})
      → Bool
      → List Round
      → Requester × Table
      → (Requester × Table) × Option (Result (Unit {0}))
  connect_and_work (ok done) true rounds s = work_rounds rounds s
  connect_and_work (ok done) false rounds s =
      (s, some (err (protocol (codes "failed to open bi stream: "))))
  connect_and_work (err e) opened rounds s = (s, some (err e))
  connect_and_work panic opened rounds s = (s, some panic)
