-- ===== src/Plan/Push.antt =====
-- iroh-nix/src/main.rs: `build_push` queues the derivations of a plan in their order. The index that is asked
-- for the inputs is that of the node.
use iroh_nix.Support.{
  ℕ, suc, Bool, false, not, ◌||◌, Option, none, some, List, [], ◌∷◌, ◌++◌, if◌then◌else◌, Bytes,
  codes, ◌==◌, eq_nat, eq_bytes, keep_if, is_empty,
}
use iroh_nix.Support.Counts.{keys}
use iroh_nix.Error.{Result, ok, err, panic}
use iroh_nix.Build.Types.{DrvHash, InputPath, BuildQueue}
use iroh_nix.HashIndex.Entries.{HashEntry}
use iroh_nix.HashIndex.{Table, get_by_store_path}
use iroh_nix.Node.Builds.{Announce, push_build}
use iroh_nix.Plan.{DrvInfo, BuildPlan}

-- The system and the required features, but for "builtin".
unfoldable pub drv_features : DrvInfo → List Bytes
drv_features drv_info =
    drv_info.system ∷ keep_if (λ f. not (f == codes "builtin")) drv_info.required_features

-- Features that the user gives take their place.
unfoldable pub build_features : List Bytes → DrvInfo → List Bytes
build_features features drv_info =
    if not (is_empty features) then features else drv_features drv_info

unfoldable pub known_input : Bytes → Result (Option HashEntry) → List InputPath
known_input path (ok (some entry)) = record { store_path = path; blake3 = entry.blake3 } ∷ []
known_input path (ok none) = []
known_input path (err e) = []
known_input path panic = []

unfoldable pub known_inputs : Bool → Table → List Bytes → List InputPath
known_inputs answers table [] = []
known_inputs answers table (path ∷ paths) =
    known_input path (get_by_store_path answers path table) ++ known_inputs answers table paths

-- `plan.to_build.iter().find(|d| &d.drv_path == dep_drv)`
unfoldable pub find_drv : Bytes → List DrvInfo → Option DrvInfo
find_drv dep_drv [] = none
find_drv dep_drv (d ∷ ds) = if d.drv_path == dep_drv then some d else find_drv dep_drv ds

unfoldable pub dep_outputs : Option DrvInfo → List Bytes
dep_outputs none = []
dep_outputs (some dep_info) = dep_info.outputs

unfoldable pub dep_inputs : Bool → Table → List DrvInfo → List Bytes → List InputPath
dep_inputs answers table drvs [] = []
dep_inputs answers table drvs (dep ∷ deps) =
    known_inputs answers table (dep_outputs (find_drv dep drvs))
    ++ dep_inputs answers table drvs deps

unfoldable pub input_paths_of : Bool → Table → List DrvInfo → DrvInfo → List InputPath
input_paths_of answers table drvs drv_info =
    known_inputs answers table drv_info.input_srcs
    ++ dep_inputs answers table drvs (keys drv_info.input_drvs)

module _ {EndpointId Sender : Type 0} (blake3_hash : Bytes → DrvHash) (announce : Announce)
    (clock : ℕ → ℕ) (answers : Bool) (table : Table) (features : List Bytes)
    (plan : BuildPlan) where
  -- The loop over the derivations that are left, with the number of the round, which the clock tells the
  -- time of: the queue, and whether any was announced.
  unfoldable pub queue_builds :
      ℕ
      → List DrvInfo
      → Bool
      → Option (BuildQueue EndpointId Sender)
      → Option (BuildQueue EndpointId Sender) × Result Bool
  queue_builds turn [] announced_any q = (q, ok announced_any)
  queue_builds turn (drv_info ∷ drvs) announced_any q =
      let (next, pushed) =
        push_build blake3_hash announce (clock turn) q drv_info.drv_path
          (build_features features drv_info) drv_info.outputs
          (input_paths_of answers table plan.to_build drv_info) in
      elim pushed [
        | ok (job_id, announced) ↦ queue_builds (suc turn) drvs (announced_any || announced) next
        | err e ↦ (next, err e)
        | panic ↦ (next, panic)
      ]

  -- All of the plan.
  unfoldable pub queue_plan :
      Option (BuildQueue EndpointId Sender) → Option (BuildQueue EndpointId Sender) × Result Bool
  queue_plan q = queue_builds 0 plan.to_build false q
