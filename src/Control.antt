-- ===== src/Control.antt =====
-- iroh-nix/src/control.rs: what the daemon does with a request on its control socket, and what the
-- client makes of the response. The socket and JSON are foreign; the frames are in the child Frames.
pub mod Poll
pub mod Frames
pub mod Exchange
pub mod Stream
pub mod Session
mod Tests
use iroh_nix.Support.Lines.{decimal}
use iroh_nix.Support.{
  ℕ, zero, suc, ◌+◌, ◌-◌, ◌*◌, ◌/◌, ◌%◌, ◌^◌, ◌≤◌, ◌<◌, min, ◌≡◌, refl, sym, ap, ◌∙◌, ◌≢◌, ◌↔◌, ◌⊎◌,
  inl, inr, Bool, true, false, not, ◌&&◌, ◌||◌, Option, none, some, List, [], ◌∷◌, ◌++◌, map,
  reverse, append-nil, append_assoc, arith, ltb, leb, nat_eq, if◌then◌else◌, ltb→lt, lt→ltb, leb→le,
  nat_eq_iff, Bool-cases, Option-cases, Bytes, codes, bytes_eq, bytes_eq_iff, Eq, ◌==◌, eq_nat,
  eq_bytes, ==-refl, contains, length, take, drop, replicate, All, all, length-append,
  take-append-drop, length-take, length-drop, length-replicate, All-append, All-parts, take-append,
  drop-append, keep_if, is_empty,
}
use iroh_nix.Support.Maps.{Map, lookup}
use iroh_nix.Error.{Error, build, protocol, Result, ok, err}
use iroh_nix.Build.Types.{
  JobId, DrvHash, InputPath, BuildJob, LeasedJob, BuildOutput, BuildResult, JobOutcome, completed,
  failed, BuildQueue,
}
use iroh_nix.Build.Queue.{push, fail, get_outcome}
use iroh_nix.Builder.{find_leased}

pub record InputPathInfo : Type 0 where
  pub store_path : Bytes
  pub blake3 : Bytes

pub record OutputInfo : Type 0 where
  pub store_path : Bytes
  pub blake3 : Bytes
  pub nar_size : ℕ

-- `Building { builder_id }`, `Completed { outputs }`, `Failed { error }`
pub data BuildState : Type 0 where
  pending : BuildState
  building : Bytes → BuildState
  build_completed : List OutputInfo → BuildState
  build_failed : Bytes → BuildState

-- `SubmitBuild { drv_path, system, required_features, input_paths, expected_outputs }`
pub data ControlRequest : Type 0 where
  submit_build : Bytes → Bytes → List Bytes → List InputPathInfo → List Bytes → ControlRequest
  poll_build : ℕ → ControlRequest
  has_builders : List Bytes → ControlRequest
  cancel_build : ℕ → ControlRequest

-- `BuildSubmitted { job_id }`, `BuildStatus { status }`, `HasBuilders { available, count }`,
-- `Error { message }`
pub data ControlResponse : Type 0 where
  build_submitted : ℕ → ControlResponse
  build_status : BuildState → ControlResponse
  builders : Bool → ℕ → ControlResponse
  error : Bytes → ControlResponse

unfoldable pub to_input_path : InputPathInfo → InputPath
to_input_path ip = record { store_path = ip.store_path; blake3 = ip.blake3 }

unfoldable pub to_output_info : BuildOutput → OutputInfo
to_output_info o = record { store_path = o.store_path; blake3 = o.blake3; nar_size = o.nar_size }

-- `pending.iter().find(|j| j.id.0 == job_id)`
unfoldable pub find_pending : ℕ → List BuildJob → Option BuildJob
find_pending job_id [] = none
find_pending job_id (j ∷ js) = if j.id == job_id then some j else find_pending job_id js

module _ {EndpointId : Type 0} where
  unfoldable pub outcome_status : JobOutcome EndpointId → BuildState
  outcome_status (completed result) = build_completed (map to_output_info result.outputs)
  outcome_status (failed builder message) = build_failed message

module _ {EndpointId Sender : Type 0} where
  -- The hash that `PollBuild` finds at its first look: of a lease, or else of a pending job.
  unfoldable pub known_hash : BuildQueue EndpointId Sender → ℕ → Option DrvHash
  known_hash q job_id = elim (find_leased job_id q.leased) [
    | some l ↦ some l.job.drv_hash
    | none ↦ elim (find_pending job_id q.pending) [ some j ↦ some j.drv_hash | none ↦ none ]
  ]

  outcome_or_pending : BuildQueue EndpointId Sender → Option DrvHash → BuildState
  outcome_or_pending q none = pending
  outcome_or_pending q (some drv_hash) = elim (get_outcome q drv_hash) [
    | none ↦ pending
    | some outcome ↦ outcome_status outcome
  ]

  -- The answer to `PollBuild`. It locks the queue again for each list that it takes, so the queue at
  -- the first look, at the second look at the leases, at the second look at the pending jobs and at
  -- the outcomes are four arguments.
  unfoldable pub poll :
      (EndpointId → Bytes)
      → (first leases jobs outcomes : BuildQueue EndpointId Sender) → ℕ
      → BuildState
  unfolding outcome_or_pending
  poll show first leases jobs outcomes job_id = elim (find_leased job_id leases.leased) [
    | some l ↦ building (show l.builder)
    | none ↦ elim (find_pending job_id jobs.pending) [
      | some j ↦ pending
      | none ↦ outcome_or_pending outcomes (known_hash first job_id)
    ]
  ]

module _ {EndpointId Sender : Type 0} ⦃e : Eq EndpointId⦄ (blake3_hash : Bytes → DrvHash)
    (show : EndpointId → Bytes) where
  -- A request that no other task interrupts: the new queue, the response, and the features of the
  -- announcement that is sent, if one is. An announcement that fails is only logged.
  unfoldable pub handle_control_request :
      ℕ
      → BuildQueue EndpointId Sender
      → ControlRequest
      → BuildQueue EndpointId Sender × ControlResponse × Option (List Bytes)
  handle_control_request now q
        (submit_build drv_path system required_features input_paths expected_outputs) =
      let system_features = system ∷ required_features in
      let (q', pushed) =
        push blake3_hash now q drv_path system_features expected_outputs
          (map to_input_path input_paths) in
      (q', build_submitted pushed.0, if pushed.1 then some system_features else none)
  handle_control_request now q (poll_build job_id) =
      (q, build_status (poll show q q q q job_id), none)
  handle_control_request now q (has_builders system_features) = (q, builders true 1, none)
  handle_control_request now q (cancel_build job_id) = elim (find_leased job_id q.leased) [
    | some l ↦
        let (q', known) = fail q job_id l.builder (codes "cancelled by build-hook") in
        (q', build_status (build_failed (codes "cancelled")), none)
    | none ↦
        (q, error (codes "job " ++ (decimal job_id ++ codes " not found or not in progress")), none)
  ]

-- `ControlClient::poll_build`, of the response
unfoldable pub poll_result : ControlResponse → Result BuildState
poll_result (build_status status) = ok status
poll_result (error message) = err (build message)
poll_result _ = err (protocol (codes "unexpected response to PollBuild"))
