-- ===== src/Plan.antt =====
-- iroh-nix/src/main.rs: the plan of a build, from the derivations that Nix shows to the order in which they
-- are built. The JSON values are foreign, as are the processes of Nix: parameters. A `HashMap` and a
-- `HashSet` are lists in the order of iteration; degrees count what is in memory, so they do not overflow.
pub mod Counting
pub mod Rounds
pub mod Order
pub mod Complete
pub mod Planned
pub mod Derivations
pub mod Created
pub mod Push
pub mod Pushed
pub mod Monitor
pub mod Asked
pub mod Wakes
pub mod Watched
mod Tests
mod MonitorTests
use iroh_nix.Support.{
  ℕ, zero, suc, ◌+◌, ◌-◌, ◌*◌, ◌/◌, ◌%◌, ◌^◌, ◌≤◌, ◌<◌, min, ◌≡◌, refl, sym, ap, ◌∙◌, ◌≢◌, ◌↔◌, ◌⊎◌,
  inl, inr, Bool, true, false, not, ◌&&◌, ◌||◌, Option, none, some, List, [], ◌∷◌, ◌++◌, map,
  reverse, append-nil, append_assoc, arith, ltb, leb, nat_eq, if◌then◌else◌, ltb→lt, lt→ltb, leb→le,
  nat_eq_iff, Bool-cases, Option-cases, Bytes, codes, bytes_eq, bytes_eq_iff, Eq, ◌==◌, eq_nat,
  eq_bytes, ==-refl, contains, length, take, drop, replicate, All, all, length-append,
  take-append-drop, length-take, length-drop, length-replicate, All-append, All-parts, take-append,
  drop-append, keep_if, is_empty,
}
use iroh_nix.Support.Maps.{Map, lookup, insert}
use iroh_nix.Support.Counts.{keys}
use iroh_nix.Support.Texts.{split_whitespace}
use iroh_nix.Error.{protocol, Result, ok, err, panic, ◌>>=◌}

pub record DrvInfo : Type 0 where
  pub drv_path : Bytes
  pub system : Bytes
  pub required_features : List Bytes
  pub outputs : List Bytes
  pub input_drvs : Map Bytes (List Bytes)
  pub input_srcs : List Bytes

pub record BuildPlan : Type 0 where
  pub to_build : List DrvInfo
  pub existing_paths : List Bytes

-- `in_degree` and `dependents` of `topological_sort`
pub record Degrees : Type 0 where
  pub in_degree : Map Bytes ℕ
  pub dependents : Map Bytes (List Bytes)

-- `*entry(k).or_insert(0)` and `entry(k).or_default()`
unfoldable pub or_zero : Option ℕ → ℕ
or_zero none = 0
or_zero (some n) = n

unfoldable pub or_empty : Option (List Bytes) → List Bytes
or_empty none = []
or_empty (some xs) = xs

unfoldable pub add_edge : List Bytes → Bytes → Bytes → Degrees → Degrees
add_edge to_build drv_path dep d =
    if contains to_build dep
    then record {
      in_degree = insert drv_path (or_zero (lookup drv_path d.in_degree) + 1) d.in_degree;
      dependents = insert dep (or_empty (lookup dep d.dependents) ++ drv_path ∷ []) d.dependents;
    }
    else d

unfoldable pub add_edges : List Bytes → Bytes → List Bytes → Degrees → Degrees
add_edges to_build drv_path [] d = d
add_edges to_build drv_path (dep ∷ deps) d =
    add_edges to_build drv_path deps (add_edge to_build drv_path dep d)

unfoldable pub input_keys : Option DrvInfo → List Bytes
input_keys none = []
input_keys (some info) = keys info.input_drvs

unfoldable pub add_drv : Map Bytes DrvInfo → List Bytes → Bytes → Degrees → Degrees
add_drv drvs to_build drv_path d =
    add_edges to_build drv_path (input_keys (lookup drv_path drvs)) (record {
      in_degree = insert drv_path (or_zero (lookup drv_path d.in_degree)) d.in_degree;
      dependents = d.dependents;
    })

unfoldable pub count_degrees : Map Bytes DrvInfo → List Bytes → List Bytes → Degrees → Degrees
count_degrees drvs to_build [] d = d
count_degrees drvs to_build (p ∷ ps) d = count_degrees drvs to_build ps (add_drv drvs to_build p d)

unfoldable pub is_zero : ℕ → Bool
is_zero zero = true
is_zero (suc n) = false

-- The paths of degree 0, in the order of iteration.
unfoldable pub ready : Map Bytes ℕ → List Bytes
ready [] = []
ready ((k, deg) ∷ m) = let rest = ready m in if is_zero deg then k ∷ rest else rest

-- `*deg -= 1`, which in a release build wraps around at 0
unfoldable pub decremented : ℕ → ℕ
decremented zero = 2 ^ 64 - 1
decremented (suc n) = n

pub record Pending : Type 0 where
  pub degrees : Map Bytes ℕ
  pub queue : List Bytes

unfoldable pub lower : Bytes → ℕ → Pending → Pending
lower dep deg s = record {
  degrees = insert dep (decremented deg) s.degrees;
  queue = if is_zero (decremented deg) then s.queue ++ dep ∷ [] else s.queue;
}

unfoldable pub release : Bytes → Pending → Pending
release dep s = elim (lookup dep s.degrees) [ none ↦ s | some deg ↦ lower dep deg s ]

unfoldable pub release_all : List Bytes → Pending → Pending
release_all [] s = s
release_all (dep ∷ deps) s = release_all deps (release dep s)

-- The loop, with the rounds that are left; `none` where they run out.
unfoldable pub kahn :
    Map Bytes (List Bytes) → ℕ → Map Bytes ℕ → List Bytes → List Bytes → Option (List Bytes)
kahn dependents fuel degrees [] result = some result
kahn dependents zero degrees (node ∷ queue) result = none
kahn dependents (suc fuel) degrees (node ∷ queue) result =
    let next =
      release_all (or_empty (lookup node dependents))
        (record { degrees = degrees; queue = queue }) in
    kahn dependents fuel next.degrees next.queue (result ++ node ∷ [])

unfoldable pub degrees_of : Map Bytes DrvInfo → List Bytes → Degrees
degrees_of drvs to_build =
    count_degrees drvs to_build to_build (record { in_degree = []; dependents = [] })

unfoldable pub topological_sort : Map Bytes DrvInfo → List Bytes → Option (List Bytes)
topological_sort drvs to_build =
    let d = degrees_of drvs to_build in
    kahn d.dependents (length d.in_degree) d.in_degree (ready d.in_degree) []
