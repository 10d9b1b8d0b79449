-- ===== src/Plan/Pushed.antt =====
-- The queue after `build_push` of iroh-nix/src/main.rs has queued a plan.
use mathlib.Core.Path.{subst}
use iroh_nix.Support.{
  ℕ, suc, ◌≡◌, refl, sym, ap, ◌∙◌, Bool, false, ◌||◌, Option, some, List, [], ◌∷◌, ◌++◌, map,
  append-nil, append_assoc, arith, Bytes, eq_nat, eq_bytes,
}
use iroh_nix.Support.Maps.{Map}
use iroh_nix.Error.{ok}
use iroh_nix.Build.Types.{JobId, DrvHash, BuildJob, BuildQueue, InputPath}
use iroh_nix.Build.Queue.{new, push}
use iroh_nix.HashIndex.{Table}
use iroh_nix.Node.Builds.{Announce, announced, push_build}
use iroh_nix.Plan.{DrvInfo, BuildPlan}
use iroh_nix.Plan.Planned.{IsBuildOrder, IsAcyclic}
use iroh_nix.Plan.Derivations.{
  Json, Nix, parse_drvs_recursive, check_existing_paths, all_outputs, create_build_plan,
}
use iroh_nix.Plan.Created.{create_build_plan_lem}
use iroh_nix.Plan.Push.{build_features, input_paths_of, queue_builds, queue_plan}

abbrev pub job_paths : List BuildJob → List Bytes
job_paths jobs = map (λ (j : BuildJob). j.drv_path) jobs

-- Gossip is off, or its announcements succeed.
abbrev pub Announces : Announce → Type 0
Announces announce =
    (features : List Bytes) (pushed : JobId × Bool) → announced announce features pushed ≡ ok pushed

abbrev drv_paths : List DrvInfo → List Bytes
drv_paths drvs = map (λ (d : DrvInfo). d.drv_path) drvs

module _ {EndpointId Sender : Type 0} (blake3_hash : Bytes → DrvHash) (announce : Announce)
    (clock : ℕ → ℕ) (answers : Bool) (table : Table) (features : List Bytes)
    (plan : BuildPlan) where
  push-pending :
      (now : ℕ) (q : BuildQueue EndpointId Sender) (path : Bytes) (fs outputs : List Bytes)
      (inputs : List InputPath)
      → (job : BuildJob) × ((push blake3_hash now q path fs outputs inputs).0.pending
          ≡ q.pending ++ job ∷ [])
        × (job.drv_path ≡ path)
  unfolding push
  push-pending now q path fs outputs inputs = (_, refl, refl)

  push_build-pushed :
      (now : ℕ) (q : BuildQueue EndpointId Sender) (d : DrvInfo)
      → Announces announce
      → push_build blake3_hash announce now
          (some q)
          d.drv_path
          (build_features features d)
          d.outputs
          (input_paths_of answers table plan.to_build d)
        ≡ (
          some
              (push blake3_hash now q d.drv_path
                (build_features features d)
                d.outputs
                (input_paths_of answers table plan.to_build d)).0,
          ok
              (push blake3_hash now q d.drv_path
                (build_features features d)
                d.outputs
                (input_paths_of answers table plan.to_build d)).1,
        )
  unfolding push_build
  push_build-pushed now q d h = rw (h (build_features features d) _) refl

  queue_builds-step :
      (d : DrvInfo) (drvs : List DrvInfo) (turn : ℕ) (any : Bool) (q : BuildQueue EndpointId Sender)
      (next : BuildQueue EndpointId Sender) (pushed : JobId × Bool)
      → push_build blake3_hash announce
          (clock turn)
          (some q)
          d.drv_path
          (build_features features d)
          d.outputs
          (input_paths_of answers table plan.to_build d)
        ≡ (some next, ok pushed)
      → queue_builds blake3_hash announce clock answers table features plan turn
          (d ∷ drvs)
          any
          (some q)
        ≡ queue_builds blake3_hash announce clock answers table features plan
            (suc turn)
            drvs
            (any || pushed.1)
            (some next)
  unfolding queue_builds
  queue_builds-step d drvs turn any q next pushed h = ground (arith, h)

  queue_builds-none :
      (turn : ℕ) (any : Bool) (q : Option (BuildQueue EndpointId Sender))
      → queue_builds blake3_hash announce clock answers table features plan turn [] any q
        ≡ (q, ok any)
  unfolding queue_builds
  queue_builds-none turn any q = refl

  queue_builds-pending :
      (drvs : List DrvInfo) (turn : ℕ) (any : Bool) (q : BuildQueue EndpointId Sender)
      → Announces announce
      → (next : BuildQueue EndpointId Sender) × (some_announced : Bool) × (jobs : List BuildJob)
        × (queue_builds blake3_hash announce clock answers table features plan turn drvs any
              (some q)
            ≡ (some next, ok some_announced))
        × (next.pending ≡ q.pending ++ jobs)
        × (job_paths jobs ≡ drv_paths drvs)
  queue_builds-pending [] turn any q h =
      (q, any, [], queue_builds-none turn any (some q), sym (append-nil q.pending), refl)
  queue_builds-pending (d ∷ drvs) turn any q h =
      let r =
        push blake3_hash (clock turn) q d.drv_path (build_features features d) d.outputs
          (input_paths_of answers table plan.to_build d) in
      let (next, some_announced, jobs, result, pending, paths) =
        queue_builds-pending drvs (suc turn) (any || r.1.1) r.0 h in
      let (job, appended, path) =
        push-pending (clock turn) q d.drv_path (build_features features d) d.outputs
          (input_paths_of answers table plan.to_build d) in
      (
        next,
        some_announced,
        job ∷ jobs,
        queue_builds-step d drvs turn any q r.0 r.1 (push_build-pushed (clock turn) q d h) ∙ result,
        pending
            ∙ ap (λ (xs : List BuildJob). xs ++ jobs) appended
            ∙ append_assoc q.pending (job ∷ []) jobs,
        rw (path, paths) refl,
      )

-- Where Nix answers and shows no derivation that is an input of itself, not even through others, and
-- gossip is off or its announcements
-- succeed: into a new queue the plan of a derivation puts one job for each derivation that has an output
-- missing,
-- no other job, and each behind those of all its inputs that have an output missing.
pub queue_plan-create_build_plan :
    {Value EndpointId Sender : Type 0} (json : Json Value) (nix : Nix)
    (blake3_hash : Bytes → DrvHash) (announce : Announce) (clock : ℕ → ℕ) (answers : Bool)
    (table : Table) (features : List Bytes) (our_id : EndpointId) (drv_path : Bytes)
    (drvs : Map Bytes DrvInfo) (existing : List Bytes) (rank : Bytes → ℕ)
    → Announces announce
    → parse_drvs_recursive json nix drv_path ≡ ok drvs
    → check_existing_paths nix (all_outputs drvs) ≡ ok existing
    → IsAcyclic drvs rank
    → (plan : BuildPlan) × (next : BuildQueue EndpointId Sender) × (some_announced : Bool)
      × (create_build_plan json nix drv_path ≡ ok (some plan))
      × (queue_plan blake3_hash announce clock answers table features plan (some (new our_id))
          ≡ (some next, ok some_announced))
      × IsBuildOrder existing drvs (job_paths next.pending)
unfolding queue_plan new
queue_plan-create_build_plan json nix blake3_hash announce clock answers table features our_id
      drv_path drvs existing rank h read answered acyclic =
    let (plan, created, is_order) =
      create_build_plan_lem json nix drv_path drvs existing rank read answered acyclic in
    let (next, some_announced, jobs, queued, pending, paths) =
      queue_builds-pending blake3_hash announce clock answers table features plan plan.to_build 0
        false (new our_id) h in
    let all_paths = ap job_paths pending ∙ paths in
    (
      plan,
      next,
      some_announced,
      created,
      queued,
      subst (IsBuildOrder existing drvs) (sym all_paths) is_order,
    )
