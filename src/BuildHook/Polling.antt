-- ===== src/BuildHook/Polling.antt =====
-- Whether the build hook of iroh-nix/src/build_hook.rs learns that its build has ended.
use iroh_nix.Support.{ℕ, ◌≡◌, refl, none, List, [], ◌∷◌, map, arith, Bytes, Eq, eq_nat, eq_bytes}
use iroh_nix.Error.{Result}
use iroh_nix.Build.Types.{BuildQueue, DrvHash}
use iroh_nix.Control.{BuildState, poll_build, handle_control_request, poll_result}
use iroh_nix.Control.Poll.{poll_uninterrupted}
use iroh_nix.BuildHook.{poll_loop}

module _ {EndpointId Sender : Type 0} ⦃e : Eq EndpointId⦄ (blake3_hash : Bytes → DrvHash)
    (show : EndpointId → Bytes) where
  -- The daemon's answer to a poll.
  abbrev pub answer : ℕ → ℕ → BuildQueue EndpointId Sender → Result BuildState
  answer now job_id q =
      poll_result (handle_control_request blake3_hash show now q (poll_build job_id)).1

  -- Whatever the daemon's queue holds at each poll, also the outcome of the job, as long as no poll
  -- is interrupted by another task the hook polls on: the answers never end its loop.
  pub poll_loop-never_ends :
      (now job_id : ℕ) (queues : List (BuildQueue EndpointId Sender))
      → poll_loop (map (answer now job_id) queues) ≡ none
  unfolding poll_loop handle_control_request poll_result
  poll_loop-never_ends now job_id [] = refl
  poll_loop-never_ends now job_id (q ∷ queues) =
      ground (arith, poll_uninterrupted show q job_id, poll_loop-never_ends now job_id queues)
