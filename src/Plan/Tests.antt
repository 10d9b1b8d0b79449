-- ===== src/Plan/Tests.antt =====
-- Plans for a few derivations.
use iroh_nix.Support.{
  ℕ, ◌≡◌, refl, Bool, true, false, Option, none, some, List, [], ◌∷◌, arith, if◌then◌else◌, Bytes,
  codes, bytes_eq, ◌==◌, eq_nat, eq_bytes, contains,
}
use iroh_nix.Support.Maps.{Map, lookup, insert}
use iroh_nix.Support.Counts.{occurs, keys}
use iroh_nix.Error.{ok}
use iroh_nix.Build.Types.{BuildQueue}
use iroh_nix.Build.Queue.{new}
use iroh_nix.Node.Builds.{announced}
use iroh_nix.Plan.{
  DrvInfo, BuildPlan, or_zero, or_empty, add_edge, add_edges, input_keys, add_drv, count_degrees,
  is_zero, ready, decremented, lower, release, release_all, kahn, degrees_of, topological_sort,
}
use iroh_nix.Plan.Order.{IsOrder, topological_sort-IsOrder}
use iroh_nix.Plan.Complete.{IsRank, topological_sort_complete}
use iroh_nix.Plan.Derivations.{
  Json, Nix, filter_map, add_to_set, set_of, check_existing_paths, all_outputs, needs_build,
  to_build_set, create_build_plan, system_of, strings_of, features_of, output_path, outputs_of,
  input_outputs, collect_inputs, input_drvs_of, input_srcs_of, parse_drv_from_json, parse_drvs,
  parse_shown, parse_drvs_recursive,
}
use iroh_nix.Plan.Planned.{IsBuildOrder, IsAcyclic}
use iroh_nix.Plan.Created.{IsHashSet-to_build_set, build_paths, create_build_plan_lem}
use iroh_nix.Support.Lines.{lines, lines_from}
use iroh_nix.Plan.Push.{queue_plan}
use iroh_nix.Plan.Pushed.{job_paths, queue_plan-create_build_plan}

-- The JSON of two derivations, of which the first needs the second.
data Value : Type 0 where
  root inputs no_inputs outputs output input list : Value
  app lib : Value
  text : Bytes → Value

abbrev member : Bytes → List (Bytes × Value) → Option Value
member key [] = none
member key ((k, v) ∷ vs) = if k == key then some v else member key vs

abbrev members : Value → List (Bytes × Value)
members root = (codes "app.drv", app) ∷ (codes "lib.drv", lib) ∷ []
members app =
    (codes "system", text (codes "x86"))
    ∷ (codes "outputs", outputs)
    ∷ (codes "inputDrvs", inputs)
    ∷ []
members lib = (codes "system", text (codes "arm")) ∷ (codes "outputs", outputs) ∷ []
members inputs = (codes "lib.drv", input) ∷ []
members outputs = (codes "out", output) ∷ []
members output = (codes "path", text (codes "/nix/store/out")) ∷ []
members v = []

abbrev text_of : Value → Option Bytes
text_of (text s) = some s
text_of v = none

abbrev json : Json Value
json = record {
  from_str = λ s. some root;
  get = λ key v. member key (members v);
  as_str = text_of;
  as_array = λ v. none;
  as_object = λ v. some (members v);
}

-- No output is there yet.
abbrev nix : Nix
nix = record {
  derivation_show = λ path. some (record { success = true; stdout = [] });
  path_info = λ paths. some (record { success = false; stdout = [] });
  from_utf8_lossy = λ s. s;
}

abbrev drv : Bytes → Bytes → Map Bytes (List Bytes) → DrvInfo
drv path system input_drvs = record {
  drv_path = path;
  system = system;
  required_features = [];
  outputs = codes "/nix/store/out" ∷ [];
  input_drvs = input_drvs;
  input_srcs = [];
}

abbrev drvs : Map Bytes DrvInfo
drvs =
    (
      codes "app.drv",
      drv (codes "app.drv") (codes "x86") ((codes "lib.drv", codes "out" ∷ []) ∷ []),
    )
    ∷ (codes "lib.drv", drv (codes "lib.drv") (codes "arm") [])
    ∷ []

read : parse_drvs_recursive json nix (codes "app.drv") ≡ ok drvs
unfolding parse_drvs_recursive parse_shown parse_drvs parse_drv_from_json system_of features_of
    outputs_of output_path input_drvs_of collect_inputs input_outputs input_srcs_of filter_map
    insert bytes_eq strings_of
read = refl

nothing_built : check_existing_paths nix (all_outputs drvs) ≡ ok []
unfolding check_existing_paths all_outputs set_of lines lines_from
nothing_built = refl

topological_sort-IsOrder_example :
    (order : List Bytes) × (topological_sort drvs (to_build_set [] drvs) ≡ some order)
    × IsOrder drvs (to_build_set [] drvs) order
topological_sort-IsOrder_example =
    topological_sort-IsOrder drvs (to_build_set [] drvs) (IsHashSet-to_build_set [] drvs)

abbrev rank : Bytes → ℕ
rank d = if codes "app.drv" == d then 1 else 0

lib_built : contains (to_build_set [] drvs) (codes "lib.drv") ≡ true
unfolding to_build_set needs_build add_to_set bytes_eq
lib_built = refl

app_not_lib : (codes "app.drv" == codes "lib.drv") ≡ false
unfolding bytes_eq
app_not_lib = refl

rank-IsRank : IsRank drvs (to_build_set [] drvs) rank
unfolding lookup input_keys keys
rank-IsRank d dep h = ground (
  arith,
  h,
  lib_built,
  app_not_lib,
  eq_bytes.beq_iff (codes "lib.drv") dep,
  eq_bytes.beq_iff (codes "app.drv") d,
  eq_bytes.beq_iff (codes "app.drv") dep,
)

topological_sort_complete_example :
    (order : List Bytes) × (topological_sort drvs (to_build_set [] drvs) ≡ some order)
    × ((d : Bytes) → occurs d order ≡ (if contains (to_build_set [] drvs) d then 1 else 0))
topological_sort_complete_example =
    topological_sort_complete drvs (to_build_set [] drvs) rank (IsHashSet-to_build_set [] drvs)
      rank-IsRank

-- The library comes first.
library_first :
    topological_sort drvs (to_build_set [] drvs) ≡ some (codes "lib.drv" ∷ codes "app.drv" ∷ [])
unfolding topological_sort degrees_of count_degrees add_drv add_edges add_edge or_zero or_empty
    input_keys ready is_zero kahn release_all release lower decremented to_build_set needs_build
    add_to_set lookup insert keys bytes_eq
library_first = refl

rank-IsAcyclic : IsAcyclic drvs rank
unfolding lookup keys
rank-IsAcyclic d i h = ground (
  arith,
  h,
  app_not_lib,
  eq_bytes.beq_iff (codes "lib.drv") i,
  eq_bytes.beq_iff (codes "app.drv") d,
  eq_bytes.beq_iff (codes "app.drv") i,
)

create_build_plan_example :
    (plan : BuildPlan) × (create_build_plan json nix (codes "app.drv") ≡ ok (some plan))
    × IsBuildOrder [] drvs (build_paths json plan)
create_build_plan_example =
    create_build_plan_lem json nix (codes "app.drv") drvs [] rank read nothing_built rank-IsAcyclic

queue_plan-create_build_plan_example :
    (plan : BuildPlan) × (next : BuildQueue ℕ ℕ) × (some_announced : Bool) × (create_build_plan json
        nix
        (codes "app.drv")
      ≡ ok (some plan))
    × (queue_plan (λ path. path) none (λ turn. turn) true [] [] plan (some (new 7))
        ≡ (some next, ok some_announced))
    × IsBuildOrder [] drvs (job_paths next.pending)
unfolding announced
queue_plan-create_build_plan_example =
    queue_plan-create_build_plan json nix (λ path. path) none (λ turn. turn) true [] [] 7
      (codes "app.drv") drvs [] rank (λ features pushed. refl) read nothing_built rank-IsAcyclic
