-- ===== src/Plan/Created.antt =====
-- The plan that `create_build_plan` of iroh-nix/src/main.rs makes.
use iroh_nix.Support.{
  ℕ, ◌+◌, ◌≤◌, ◌≡◌, refl, sym, ◌∙◌, inl, inr, Bool, true, false, not, ◌&&◌, ◌||◌, Option, none,
  some, List, [], ◌∷◌, map, arith, if◌then◌else◌, Bool-cases, Option-cases, Bytes, ◌==◌, eq_nat,
  eq_bytes, contains, All, all,
}
use mathlib.Core.Path.{subst}
use iroh_nix.Support.Maps.{Map, lookup, insert, lookup-insert}
use iroh_nix.Support.Counts.{occurs, contains-occurs, keys, IsUnique, IsUnique-insert}
use iroh_nix.Error.{ok, >>=-eq-ok}
use iroh_nix.Plan.{DrvInfo, BuildPlan}
use iroh_nix.Plan.Counting.{IsHashSet}
use iroh_nix.Plan.Complete.{All-contained}
use iroh_nix.Plan.Planned.{
  is_missing, lacks_one, IsBuildOrder, IsAcyclic, topological_sort-IsBuildOrder,
}
use iroh_nix.Plan.Derivations.{
  Json, Nix, Output, filter_map, system_of, parse_drv_from_json, parse_drvs, parse_shown,
  parse_drvs_recursive, add_to_set, check_existing_paths, all_outputs, needs_build, to_build_set,
  planned, create_build_plan,
}

occurs-add_to_set :
    (x y : Bytes) (xs : List Bytes)
    → occurs y (add_to_set x xs) ≡ occurs y xs + (if (x == y) && not (contains xs x) then 1 else 0)
unfolding add_to_set occurs
occurs-add_to_set x y xs = ground arith

IsHashSet-add_to_set : (x : Bytes) (xs : List Bytes) → IsHashSet xs → IsHashSet (add_to_set x xs)
IsHashSet-add_to_set x xs h y =
    ground (arith, occurs-add_to_set x y xs, contains-occurs x xs, eq_bytes.beq_iff x y, h y)

pub IsHashSet-to_build_set :
    (existing : List Bytes) (drvs : Map Bytes DrvInfo) → IsHashSet (to_build_set existing drvs)
unfolding to_build_set occurs
IsHashSet-to_build_set existing [] = λ x. omega arith
IsHashSet-to_build_set existing ((p, info) ∷ drvs) =
    let rest = IsHashSet-to_build_set existing drvs in
    elim (Bool-cases (needs_build existing info)) [
      | inl e ↦ rw (e, to_build_set) (IsHashSet-add_to_set p (to_build_set existing drvs) rest)
      | inr e ↦ rw (e, to_build_set) rest
    ]

-- A path stands for a derivation that is known and lacks an output.
abbrev pub lacks : List Bytes → Option DrvInfo → Bool
lacks existing none = false
lacks existing (some info) = needs_build existing info

needs_build-lacks_one :
    (existing outputs : List Bytes)
    → not (all (contains existing) outputs) ≡ lacks_one existing outputs
unfolding lacks_one
needs_build-lacks_one existing [] = refl
needs_build-lacks_one existing (o ∷ os) = ground (arith, needs_build-lacks_one existing os)

lacks-is_missing :
    (existing : List Bytes) (drvs : Map Bytes DrvInfo) (d : Bytes)
    → lacks existing (lookup d drvs) ≡ is_missing existing drvs d
unfolding needs_build
lacks-is_missing existing drvs d = elim (Option-cases (lookup d drvs)) [
  | inl e ↦ ground (arith, e)
  | inr (info, e) ↦ ground (arith, e, needs_build-lacks_one existing info.outputs)
]

contains-add_to_set :
    (x y : Bytes) (xs : List Bytes) → contains (add_to_set x xs) y ≡ (x == y) || contains xs y
unfolding add_to_set
contains-add_to_set x y xs = ground (arith, eq_bytes.beq_iff x y)

contains-to_build_set-le :
    (existing : List Bytes) (d : Bytes) (drvs : Map Bytes DrvInfo)
    → contains (to_build_set existing drvs) d ≡ true
    → 1 ≤ occurs d (keys drvs)
unfolding to_build_set keys occurs
contains-to_build_set-le existing d [] h = cc
contains-to_build_set-le existing d ((p, info) ∷ drvs) h = ground (
  arith,
  h,
  contains-add_to_set p d (to_build_set existing drvs),
  contains-to_build_set-le existing d drvs,
)

contains-to_build_set :
    (existing : List Bytes) (d : Bytes) (drvs : Map Bytes DrvInfo)
    → IsUnique drvs
    → contains (to_build_set existing drvs) d ≡ lacks existing (lookup d drvs)
unfolding to_build_set lookup keys occurs
contains-to_build_set existing d [] h = refl
contains-to_build_set existing d ((p, info) ∷ drvs) h = ground (
  arith,
  h d,
  eq_bytes.beq_iff p d,
  contains-add_to_set p d (to_build_set existing drvs),
  contains-to_build_set-le existing d drvs,
  contains-to_build_set existing d drvs (λ k. omega (arith, h k)),
)

-- The derivations as they are read: each path is there once, with the derivation of that path.
pub record IsShown (drvs : Map Bytes DrvInfo) : Type 0 where
  pub unique : IsUnique drvs
  pub named : (k : Bytes) (info : DrvInfo) → lookup k drvs ≡ some info → info.drv_path ≡ k

module _ {Value : Type 0} (json : Json Value) where
  parsed_path :
      (path : Bytes) (v : Value) (info : DrvInfo)
      → parse_drv_from_json json path v ≡ ok info
      → info.drv_path ≡ path
  unfolding parse_drv_from_json
  parsed_path path v info h =
      let (system, read, rest) = >>=-eq-ok (system_of json v) _ h in ground (arith, rest)

  IsShown-insert :
      (path : Bytes) (info : DrvInfo) (drvs : Map Bytes DrvInfo)
      → info.drv_path ≡ path
      → IsShown drvs
      → IsShown (insert path info drvs)
  IsShown-insert path info drvs e h = record {
    unique = IsUnique-insert path info drvs h.unique;
    named = λ k found there.
        ground (
          arith,
          there,
          lookup-insert path k info drvs,
          e,
          eq_bytes.beq_iff path k,
          h.named k found,
        );
  }

  IsShown-parse_drvs :
      (shown : List (Bytes × Value)) (drvs next : Map Bytes DrvInfo)
      → parse_drvs json shown drvs ≡ ok next
      → IsShown drvs
      → IsShown next
  unfolding parse_drvs
  IsShown-parse_drvs [] drvs next h shown =
      let same : drvs ≡ next = cc h in subst IsShown same shown
  IsShown-parse_drvs ((path, v) ∷ more) drvs next h shown =
      let (info, read, rest) = >>=-eq-ok (parse_drv_from_json json path v) _ h in
      IsShown-parse_drvs more (insert path info drvs) next rest
        (IsShown-insert path info drvs (parsed_path path v info read) shown)

  nil-IsShown : IsShown []
  unfolding keys occurs lookup
  nil-IsShown = record { unique = λ k. omega arith; named = λ k info h. cc h }

  IsShown-parse_shown :
      (nix : Nix) (output : Output) (drvs : Map Bytes DrvInfo)
      → parse_shown json nix output ≡ ok drvs
      → IsShown drvs
  unfolding parse_shown
  IsShown-parse_shown nix output drvs h = elim (Bool-cases output.success) [
    | inr failed ↦ absurd (ground (arith, h, failed))
    | inl succeeded ↦ elim (Option-cases (json.from_str (nix.from_utf8_lossy output.stdout))) [
      | inl unread ↦ absurd (ground (arith, h, succeeded, unread))
      | inr (v, read) ↦
          IsShown-parse_drvs _ [] drvs (rw (succeeded, read, parse_shown) at h) nil-IsShown
    ]
  ]

  IsShown-parse_drvs_recursive :
      (nix : Nix) (drv_path : Bytes) (drvs : Map Bytes DrvInfo)
      → parse_drvs_recursive json nix drv_path ≡ ok drvs
      → IsShown drvs
  unfolding parse_drvs_recursive
  IsShown-parse_drvs_recursive nix drv_path drvs h =
      elim (Option-cases (nix.derivation_show drv_path)) [
        | inl unrun ↦ absurd (ground (arith, h, unrun))
        | inr (output, run) ↦
            IsShown-parse_shown nix output drvs (rw (run, parse_drvs_recursive) at h)
      ]

  paths-filter_map :
      (drvs : Map Bytes DrvInfo) (order : List Bytes)
      → IsShown drvs
      → All (λ d. (info : DrvInfo) × (lookup d drvs ≡ some info)) order
      → map (λ (info : DrvInfo). info.drv_path) (filter_map (λ d. lookup d drvs) order) ≡ order
  unfolding filter_map
  paths-filter_map drvs [] shown h = refl
  paths-filter_map drvs (d ∷ ds) shown ((info, found), h) =
      ground (arith, found, shown.named d info found, paths-filter_map drvs ds shown h)

  -- The paths of the derivations of a plan, in its order.
  abbrev pub build_paths : BuildPlan → List Bytes
  build_paths plan = map (λ (info : DrvInfo). info.drv_path) plan.to_build

  known :
      (existing : List Bytes) (drvs : Map Bytes DrvInfo) (d : Bytes)
      → IsShown drvs
      → contains (to_build_set existing drvs) d ≡ true
      → (info : DrvInfo) × (lookup d drvs ≡ some info)
  known existing drvs d shown h = elim (Option-cases (lookup d drvs)) [
    | inl missing ↦
        absurd (ground (arith, h, missing, contains-to_build_set existing d drvs shown.unique))
    | inr found ↦ found
  ]

  to_build_set-is_missing :
      (existing : List Bytes) (drvs : Map Bytes DrvInfo) (d : Bytes)
      → IsShown drvs
      → contains (to_build_set existing drvs) d ≡ is_missing existing drvs d
  to_build_set-is_missing existing drvs d shown =
      contains-to_build_set existing d drvs shown.unique ∙ lacks-is_missing existing drvs d

  -- Where Nix shows derivations that can be read, none of which is an input of itself, not even through others,
  -- and says which outputs it has, there is a plan. It builds each derivation that has an output missing
  -- exactly once and no other, and
  -- each after all of those of its inputs that have an output missing.
  pub create_build_plan_lem :
      (nix : Nix) (drv_path : Bytes) (drvs : Map Bytes DrvInfo) (existing : List Bytes)
      (rank : Bytes → ℕ)
      → parse_drvs_recursive json nix drv_path ≡ ok drvs
      → check_existing_paths nix (all_outputs drvs) ≡ ok existing
      → IsAcyclic drvs rank
      → (plan : BuildPlan) × (create_build_plan json nix drv_path ≡ ok (some plan))
        × IsBuildOrder existing drvs (build_paths plan)
  unfolding create_build_plan planned
  create_build_plan_lem nix drv_path drvs existing rank read answered acyclic =
      let shown = IsShown-parse_drvs_recursive nix drv_path drvs read in
      let (order, result, is_order) =
        topological_sort-IsBuildOrder existing drvs (to_build_set existing drvs)
          (λ d. to_build_set-is_missing existing drvs d shown) rank
          (IsHashSet-to_build_set existing drvs) acyclic in
      let found = All-contained _ order (λ d has. known existing drvs d shown (
        ground (
          arith,
          has,
          is_order.0 d,
          to_build_set-is_missing existing drvs d shown,
          contains-occurs d order,
        ))) in
      let paths = paths-filter_map drvs order shown found in
      (
        record { to_build = filter_map (λ d. lookup d drvs) order; existing_paths = existing },
        rw (read, answered, result) refl,
        subst (IsBuildOrder existing drvs) (sym paths) is_order,
      )
