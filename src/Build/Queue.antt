-- ===== src/Build/Queue.antt =====
-- The operations of `BuildQueue` in iroh-nix/src/build.rs that move jobs.
pub mod Order
pub mod Timeouts
pub mod InFlight
pub mod Calls
pub mod Fetches
pub mod Flow
pub mod Ownership
pub mod Invariant
pub mod Example
mod Tests
use iroh_nix.Support.{
  ℕ, zero, suc, ◌+◌, ◌-◌, ◌*◌, ◌/◌, ◌%◌, ◌^◌, ◌≤◌, ◌<◌, min, ◌≡◌, refl, sym, ap, ◌∙◌, ◌≢◌, ◌↔◌, ◌⊎◌,
  inl, inr, Bool, true, false, not, ◌&&◌, ◌||◌, Option, none, some, List, [], ◌∷◌, ◌++◌, map,
  reverse, append-nil, append_assoc, arith, ltb, leb, nat_eq, if◌then◌else◌, ltb→lt, lt→ltb, leb→le,
  nat_eq_iff, Bool-cases, Option-cases, Bytes, codes, bytes_eq, bytes_eq_iff, Eq, ◌==◌, eq_nat,
  eq_bytes, ==-refl, contains, length, take, drop, replicate, All, all, length-append,
  take-append-drop, length-take, length-drop, length-replicate, All-append, All-parts, take-append,
  drop-append, keep_if, is_empty,
}
use iroh_nix.Support.Maps.{Map, lookup, insert, erase}
use iroh_nix.Build.Types.{
  JobId, DrvHash, InputPath, BuildJob, LeasedJob, BuildResult, JobOutcome, completed, failed,
  BuildQueue, QueueStats, job_lease_timeout,
}

-- `iter().position(p)`
unfoldable pub position {ℓ} : {A : Type ℓ} → (A → Bool) → List A → Option ℕ
position p [] = none
position p (x ∷ xs) =
    let rest = position p xs in
    if p x then some 0 else elim rest [ none ↦ none | some i ↦ some (suc i) ]

-- `VecDeque::remove(i)`, with what is left
unfoldable pub remove_at {ℓ} : {A : Type ℓ} → ℕ → List A → Option (A × List A)
remove_at i [] = none
remove_at zero (x ∷ xs) = some (x, xs)
remove_at (suc i) (x ∷ xs) = elim (remove_at i xs) [ none ↦ none | some (y, ys) ↦ some (y, x ∷ ys) ]

-- The closure of `pull`: the builder has every feature that the job requires.
unfoldable pub matches : List Bytes → BuildJob → Bool
matches builder_features job = all (contains builder_features) job.system_features

unfoldable pub is_none {ℓ} : {A : Type ℓ} → Option A → Bool
is_none none = true
is_none (some a) = false

module _ {EndpointId : Type 0} where
  unfoldable pub lease : ℕ → EndpointId → BuildJob → LeasedJob EndpointId
  lease now builder job = record {
    job = job;
    builder = builder;
    leased_at = now;
    last_heartbeat = now;
    status = codes "starting";
  }

  -- `now.duration_since(last_heartbeat) > JOB_LEASE_TIMEOUT`; the difference stops at 0
  unfoldable pub is_late : ℕ → LeasedJob EndpointId → Bool
  is_late now l = ltb job_lease_timeout (now - l.last_heartbeat)

  -- The closure of `retain`, over the leases in the order of iteration: what is kept, the queue
  -- with the late jobs put in front, and their ids.
  unfoldable pub retain_leases :
      ℕ
      → Map JobId (LeasedJob EndpointId)
      → List BuildJob
      → Map JobId (LeasedJob EndpointId) × List BuildJob × List JobId
  retain_leases now [] pending = ([], pending, [])
  retain_leases now ((id, l) ∷ m) pending =
      let late = is_late now l in
      let rest = retain_leases now m (if late then l.job ∷ pending else pending) in
      if late then (rest.0, rest.1, id ∷ rest.2) else ((id, l) ∷ rest.0, rest.1, rest.2)

module _ {EndpointId Sender : Type 0} where
  unfoldable pub new : EndpointId → BuildQueue EndpointId Sender
  new our_id = record {
    our_id = our_id;
    next_job_id = 1;
    pending = [];
    leased = [];
    finished = [];
    pending_fetch = [];
    needed_features = none;
    log_subscribers = [];
  }

  -- `*next += 1` wraps, as in a release build.
  unfoldable pub push :
      (Bytes → DrvHash)
      → ℕ
      → BuildQueue EndpointId Sender
      → Bytes
      → List Bytes
      → List Bytes
      → List InputPath
      → BuildQueue EndpointId Sender × (JobId × Bool)
  unfolding is_empty is_none
  push blake3_hash timestamp q drv_path system_features outputs input_paths =
      let job : BuildJob = record {
        id = q.next_job_id;
        drv_hash = blake3_hash drv_path;
        drv_path = drv_path;
        system_features = system_features;
        outputs = outputs;
        input_paths = input_paths;
        submitted_at = timestamp;
      } in
      let announce = is_empty q.pending || is_none q.needed_features in
      (
        record q {
          next_job_id = (q.next_job_id + 1) % 2 ^ 64;
          pending = q.pending ++ job ∷ [];
          needed_features = if announce then some system_features else q.needed_features;
        },
        (q.next_job_id, announce),
      )

  unfoldable take_job :
      ℕ
      → EndpointId
      → BuildQueue EndpointId Sender
      → Option (BuildJob × List BuildJob)
      → BuildQueue EndpointId Sender × Option BuildJob
  unfolding lease
  take_job now builder q none = (q, none)
  take_job now builder q (some (job, rest)) = (
    record q { pending = rest; leased = insert job.id (lease now builder job) q.leased },
    some job,
  )

  -- The two readings of the clock are one.
  unfoldable pub pull :
      ℕ
      → BuildQueue EndpointId Sender
      → EndpointId
      → List Bytes
      → BuildQueue EndpointId Sender × Option BuildJob
  unfolding take_job
  pull now q builder builder_features = elim (position (matches builder_features) q.pending) [
    | none ↦ (q, none)
    | some i ↦ take_job now builder q (remove_at i q.pending)
  ]

  module _ ⦃e : Eq EndpointId⦄ where
    unfoldable pub heartbeat :
        ℕ
        → BuildQueue EndpointId Sender
        → JobId
        → EndpointId
        → Bytes
        → BuildQueue EndpointId Sender × Bool
    heartbeat now q job_id builder status = elim (lookup job_id q.leased) [
      | none ↦ (q, false)
      | some l ↦
          if l.builder == builder
          then (
            record q {
              leased = insert job_id (record l { last_heartbeat = now; status = status }) q.leased;
            },
            true,
          )
          else (q, false)
    ]

    unfoldable pub complete :
        BuildQueue EndpointId Sender
        → JobId
        → EndpointId
        → BuildResult
        → BuildQueue EndpointId Sender × Bool
    complete q job_id builder result = elim (lookup job_id q.leased) [
      | none ↦ (q, false)
      | some l ↦
          if l.builder == builder
          then (
            record q {
              leased = erase job_id q.leased;
              pending_fetch = q.pending_fetch ++ result ∷ [];
              finished = insert l.job.drv_hash (completed result) q.finished;
            },
            true,
          )
          else (record q { leased = insert job_id l (erase job_id q.leased) }, false)
    ]

    unfoldable pub fail :
        BuildQueue EndpointId Sender
        → JobId
        → EndpointId
        → Bytes
        → BuildQueue EndpointId Sender × Bool
    fail q job_id builder error = elim (lookup job_id q.leased) [
      | none ↦ (q, false)
      | some l ↦
          if l.builder == builder
          then (
            record q {
              leased = erase job_id q.leased;
              finished = insert l.job.drv_hash (failed builder error) q.finished;
            },
            true,
          )
          else (record q { leased = insert job_id l (erase job_id q.leased) }, false)
    ]

  unfoldable pub check_timeouts :
      ℕ → BuildQueue EndpointId Sender → BuildQueue EndpointId Sender × List JobId
  check_timeouts now q =
      let rest = retain_leases now q.leased q.pending in
      (record q { leased = rest.0; pending = rest.1 }, rest.2)

  unfoldable pub has_pending_work : BuildQueue EndpointId Sender → Bool
  unfolding is_empty
  has_pending_work q = not (is_empty q.pending)

  unfoldable pub clear_needed_features : BuildQueue EndpointId Sender → BuildQueue EndpointId Sender
  clear_needed_features q = record q { needed_features = none }

  unfoldable pub stats : BuildQueue EndpointId Sender → QueueStats
  stats q = record {
    pending_count = length q.pending;
    leased_count = length q.leased;
    completed_count = length q.finished;
  }

  unfoldable pub get_outcome :
      BuildQueue EndpointId Sender → DrvHash → Option (JobOutcome EndpointId)
  get_outcome q drv_hash = lookup drv_hash q.finished

  unfoldable pub take_pending_fetches :
      BuildQueue EndpointId Sender → BuildQueue EndpointId Sender × List BuildResult
  take_pending_fetches q = (record q { pending_fetch = [] }, q.pending_fetch)

  unfoldable pub has_pending_fetches : BuildQueue EndpointId Sender → Bool
  unfolding is_empty
  has_pending_fetches q = not (is_empty q.pending_fetch)
