-- ===== src/Control/Poll.antt =====
-- What `PollBuild` and `CancelBuild` of iroh-nix/src/control.rs answer.
use iroh_nix.Support.Lines.{decimal}
use iroh_nix.Support.{
  ℕ, ◌≡◌, refl, sym, ◌∙◌, Option, none, some, List, ◌++◌, arith, Bytes, codes, Eq, eq_nat, eq_bytes,
}
use iroh_nix.Support.Maps.{lookup}
use iroh_nix.Build.Types.{DrvHash, LeasedJob, BuildQueue, failed}
use iroh_nix.Build.Queue.{fail, get_outcome}
use iroh_nix.Build.Queue.Ownership.{fail_held}
use mathlib.Core.Path.{subst}
use iroh_nix.Builder.Requests.{find_leased-eq-lookup}
use iroh_nix.Control.{
  BuildState, ControlResponse, pending, building, build_failed, cancel_build, build_status, error,
  known_hash, poll, handle_control_request,
}

module _ {EndpointId : Type 0} (show : EndpointId → Bytes) where
  -- The status of a lease, if the job has one, and else `pending`.
  abbrev pub lease_status : Option (LeasedJob EndpointId) → BuildState
  lease_status none = pending
  lease_status (some l) = building (show l.builder)

module _ {EndpointId Sender : Type 0} (show : EndpointId → Bytes) where
  -- A poll that no other task interrupts answers that the job is building, on the builder of its
  -- lease, if it is leased, and that it is pending in all other cases: also where it has been
  -- completed or has failed, and where it never existed.
  pub poll_uninterrupted :
      (q : BuildQueue EndpointId Sender) (job_id : ℕ)
      → poll show q q q q job_id ≡ lease_status show (lookup job_id q.leased)
  unfolding poll known_hash
  poll_uninterrupted q job_id = ground (arith, find_leased-eq-lookup job_id q.leased)

  -- A poll interrupted by other tasks reports an outcome only if the job was leased or pending at
  -- its first look at the queue.
  pub poll_of_unknown :
      (first leases jobs outcomes : BuildQueue EndpointId Sender) (job_id : ℕ)
      → known_hash first job_id ≡ none
      → poll show first leases jobs outcomes job_id
        ≡ lease_status show (lookup job_id leases.leased)
  unfolding poll
  poll_of_unknown first leases jobs outcomes job_id h =
      ground (arith, find_leased-eq-lookup job_id leases.leased, h)

module _ {EndpointId Sender : Type 0} ⦃e : Eq EndpointId⦄ (blake3_hash : Bytes → DrvHash)
    (show : EndpointId → Bytes) (now : ℕ) (q : BuildQueue EndpointId Sender) (job_id : ℕ) where
  -- What `CancelBuild` does to a leased job, and to any other.
  abbrev pub Cancels :
      Option (LeasedJob EndpointId)
      → BuildQueue EndpointId Sender × ControlResponse × Option (List Bytes)
      → Type 0
  Cancels none r =
      r
      ≡ (q, error (codes "job " ++ (decimal job_id ++ codes " not found or not in progress")), none)
  Cancels (some l) r =
      (lookup job_id r.0.leased ≡ none)
      × (r.0.pending ≡ q.pending)
      × (get_outcome r.0 l.job.drv_hash ≡ some (failed l.builder (codes "cancelled by build-hook")))
      × (r.1 ≡ build_status (build_failed (codes "cancelled")))

  cancel_found :
      (l : LeasedJob EndpointId)
      → lookup job_id q.leased ≡ some l
      → handle_control_request blake3_hash show now q (cancel_build job_id) ≡ (
        (fail q job_id l.builder (codes "cancelled by build-hook")).0,
        build_status (build_failed (codes "cancelled")),
        none,
      )
  cancel_found l h =
      unfold handle_control_request in
      rw (find_leased-eq-lookup job_id q.leased ∙ h, handle_control_request)

  cancel_cases :
      (o : Option (LeasedJob EndpointId))
      → lookup job_id q.leased ≡ o
      → Cancels o (handle_control_request blake3_hash show now q (cancel_build job_id))
  unfolding handle_control_request
  cancel_cases none h = rw (find_leased-eq-lookup job_id q.leased ∙ h, handle_control_request)
  cancel_cases (some l) h =
      let (gone, jobs, outcome) =
        fail_held q job_id l.builder (codes "cancelled by build-hook") l h refl in
      subst (Cancels (some l)) (sym (cancel_found l h)) (gone, jobs, outcome, refl)

  -- Cancelling a leased job ends its lease without a return to the queue, whoever holds it, and
  -- records a failure of its derivation in the holder's name. Any other job, a pending one too, is
  -- answered with an error and nothing changes.
  cancel-Cancels :
      Cancels
        (lookup job_id q.leased)
        (handle_control_request blake3_hash show now q (cancel_build job_id))
  cancel-Cancels = cancel_cases (lookup job_id q.leased) refl
