-- ===== src/Build/Queue/Calls.antt =====
-- Sequences of calls on the build queue of iroh-nix/src/build.rs.
use iroh_nix.Support.{
  ℕ, ◌≤◌, Bool, false, ◌&&◌, none, some, List, [], ◌∷◌, arith, Bytes, Eq, ◌==◌, eq_nat, eq_bytes,
}
use iroh_nix.Support.Maps.{lookup}
use iroh_nix.Build.Types.{JobId, DrvHash, InputPath, BuildResult, BuildQueue}
use iroh_nix.Build.Queue.{
  push, pull, heartbeat, complete, fail, check_timeouts, clear_needed_features,
  take_pending_fetches,
}
use iroh_nix.Build.Queue.InFlight.{one_if}

-- A call of an operation that changes the jobs, with its arguments and the clock.
pub data Call (EndpointId : Type 0) : Type 0 where
  pushes : ℕ → Bytes → List Bytes → List Bytes → List InputPath → Call EndpointId
  pulls : ℕ → EndpointId → List Bytes → Call EndpointId
  heartbeats : ℕ → JobId → EndpointId → Bytes → Call EndpointId
  completes : JobId → EndpointId → BuildResult → Call EndpointId
  fails : JobId → EndpointId → Bytes → Call EndpointId
  checks_timeouts : ℕ → Call EndpointId
  clears_needed_features takes_pending_fetches : Call EndpointId

module _ {EndpointId Sender : Type 0} ⦃e : Eq EndpointId⦄ (blake3_hash : Bytes → DrvHash) where
  unfoldable pub apply :
      Call EndpointId → BuildQueue EndpointId Sender → BuildQueue EndpointId Sender
  apply (pushes t drv features outputs inputs) q =
      (push blake3_hash t q drv features outputs inputs).0
  apply (pulls now builder features) q = (pull now q builder features).0
  apply (heartbeats now id builder status) q = (heartbeat now q id builder status).0
  apply (completes id builder result) q = (complete q id builder result).0
  apply (fails id builder error) q = (fail q id builder error).0
  apply (checks_timeouts now) q = (check_timeouts now q).0
  apply clears_needed_features q = clear_needed_features q
  apply takes_pending_fetches q = (take_pending_fetches q).0

  unfoldable pub run :
      List (Call EndpointId) → BuildQueue EndpointId Sender → BuildQueue EndpointId Sender
  run [] q = q
  run (c ∷ cs) q = run cs (apply c q)

module _ {EndpointId Sender : Type 0} ⦃e : Eq EndpointId⦄ where
  -- The builder holds the lease of the job.
  unfoldable pub holds : BuildQueue EndpointId Sender → JobId → EndpointId → Bool
  holds q id builder = elim (lookup id q.leased) [ none ↦ false | some l ↦ l.builder == builder ]

  -- The id that a call takes into the queue, and the one that it takes out of it.
  unfoldable pub opened : Call EndpointId → BuildQueue EndpointId Sender → JobId → ℕ
  opened (pushes t drv features outputs inputs) q id = one_if (q.next_job_id == id)
  opened _ q id = 0

  unfoldable pub closed : Call EndpointId → BuildQueue EndpointId Sender → JobId → ℕ
  closed (completes j builder result) q id = one_if (holds q j builder && (j == id))
  closed (fails j builder error) q id = one_if (holds q j builder && (j == id))
  closed _ q id = 0

module _ {EndpointId : Type 0} where
  -- One id is assigned by a push, none by the other calls.
  abbrev pub assigned : Call EndpointId → ℕ
  assigned (pushes t drv features outputs inputs) = 1
  assigned _ = 0

  pub assigned-le : (c : Call EndpointId) → assigned c ≤ 1
  assigned-le (pushes t drv features outputs inputs) = omega arith
  assigned-le _ = omega arith
