-- ===== src/Build/Queue/Flow.antt =====
-- What each operation of the build queue of iroh-nix/src/build.rs does to the ids in flight.
use iroh_nix.Support.{
  ℕ, ◌+◌, ◌≤◌, ◌≡◌, ap, inl, inr, ◌&&◌, none, List, ◌∷◌, ◌++◌, arith, Option-cases, Bytes, Eq, ◌==◌,
  eq_nat, eq_bytes,
}
use iroh_nix.Support.Maps.{lookup, erase, lookup-erase}
use iroh_nix.Build.Types.{JobId, DrvHash, InputPath, BuildJob, BuildResult, BuildQueue}
use iroh_nix.Build.Queue.{push, pull, heartbeat, complete, fail, check_timeouts}
use iroh_nix.Build.Queue.Order.{leased_to, pull-PullsFirst}
use iroh_nix.Build.Queue.Timeouts.{check_timeouts_lem}
use iroh_nix.Build.Queue.InFlight.{
  one_if, count_jobs, count_jobs-append, IsNamed, count_leases-insert, count_leases-erase,
  lookup-count, count-lookup, count_leases_split, count_returned, in_flight,
}
use iroh_nix.Build.Queue.Calls.{holds}

module _ {EndpointId Sender : Type 0} (q : BuildQueue EndpointId Sender) where
  pub push_flow :
      (blake3_hash : Bytes → DrvHash) (t : ℕ) (drv : Bytes) (features outputs : List Bytes)
      (inputs : List InputPath) (id : JobId)
      → in_flight id (push blake3_hash t q drv features outputs inputs).0
        ≡ in_flight id q + one_if (q.next_job_id == id)
  unfolding push in_flight count_jobs
  push_flow blake3_hash t drv features outputs inputs id =
      omega (arith, count_jobs-append id q.pending _)

  -- The job that a pull takes is not leased.
  pub pulled-not_leased :
      (pre post : List BuildJob) (job : BuildJob)
      → q.pending ≡ pre ++ job ∷ post
      → in_flight job.id q ≤ 1
      → lookup job.id q.leased ≡ none
  unfolding in_flight count_jobs
  pulled-not_leased pre post job split h =
      lookup-count job.id q.leased
        (ground (arith, ap (count_jobs job.id) split, count_jobs-append job.id pre (job ∷ post)))

  pub pull_flow :
      (now : ℕ) (builder : EndpointId) (features : List Bytes) (id : JobId)
      → ((j : JobId) → in_flight j q ≤ 1)
      → in_flight id (pull now q builder features).0 ≡ in_flight id q
  unfolding in_flight count_jobs
  pull_flow now builder features id v = elim (pull-PullsFirst now q builder features) [
    | inl (nowhere, r) ↦ rw r
    | inr (pre, job, post, split, before, hit, r) ↦
        let fresh = pulled-not_leased pre post job split (v job.id) in
        rw r (
          ground (
            arith,
            fresh,
            ap (count_jobs id) split,
            count_jobs-append id pre (job ∷ post),
            count_jobs-append id pre post,
            count_leases-insert id job.id (leased_to now builder job) q.leased,
          ))
  ]

  pub check_flow :
      (now : ℕ) (id : JobId)
      → IsNamed q.leased
      → in_flight id (check_timeouts now q).0 ≡ in_flight id q
  unfolding in_flight
  check_flow now id h = rw (check_timeouts_lem now q) (
      omega (
        arith,
        count_jobs-append id _ q.pending,
        count_returned id now q.leased h,
        count_leases_split id now q.leased,
      ))

module _ {EndpointId Sender : Type 0} ⦃e : Eq EndpointId⦄ (q : BuildQueue EndpointId Sender) where
  pub heartbeat_flow :
      (now : ℕ) (j : JobId) (builder : EndpointId) (status : Bytes) (id : JobId)
      → in_flight id (heartbeat now q j builder status).0 ≡ in_flight id q
  unfolding in_flight heartbeat
  heartbeat_flow now j builder status id = elim (Option-cases (lookup j q.leased)) [
    | inl e ↦ rw (e, heartbeat)
    | inr (l, e) ↦ ground (
      arith,
      e,
      count_leases-insert id j (record l { last_heartbeat = now; status = status }) q.leased,
    )
  ]

  pub complete_flow :
      (j : JobId) (builder : EndpointId) (result : BuildResult) (id : JobId)
      → in_flight j q ≤ 1
      → in_flight id (complete q j builder result).0 + one_if (holds q j builder && (j == id))
        ≡ in_flight id q
  unfolding in_flight complete holds
  complete_flow j builder result id u = elim (Option-cases (lookup j q.leased)) [
    | inl e ↦ ground (arith, e)
    | inr (l, e) ↦ ground (
      arith,
      e,
      count-lookup j {l = l} q.leased e,
      count_leases-erase id j q.leased,
      lookup-erase j j q.leased,
      count_leases-insert id j l (erase j q.leased),
    )
  ]

  pub fail_flow :
      (j : JobId) (builder : EndpointId) (error : Bytes) (id : JobId)
      → in_flight j q ≤ 1
      → in_flight id (fail q j builder error).0 + one_if (holds q j builder && (j == id))
        ≡ in_flight id q
  unfolding in_flight fail holds
  fail_flow j builder error id u = elim (Option-cases (lookup j q.leased)) [
    | inl e ↦ ground (arith, e)
    | inr (l, e) ↦ ground (
      arith,
      e,
      count-lookup j {l = l} q.leased e,
      count_leases-erase id j q.leased,
      lookup-erase j j q.leased,
      count_leases-insert id j l (erase j q.leased),
    )
  ]
