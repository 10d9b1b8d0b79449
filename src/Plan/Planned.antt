-- ===== src/Plan/Planned.antt =====
-- The order in which a plan of iroh-nix/src/main.rs builds, in terms of what Nix shows and has.
use iroh_nix.Support.{
  ℕ, ◌<◌, ◌≡◌, refl, ap, ◌∙◌, inl, inr, Bool, true, false, not, ◌&&◌, ◌||◌, none, some, List, [],
  ◌∷◌, ◌++◌, arith, if◌then◌else◌, Bool-cases, Option-cases, Bytes, ◌==◌, eq_nat, eq_bytes,
  contains, keep_if,
}
use iroh_nix.Support.Maps.{Map, lookup}
use iroh_nix.Support.Counts.{occurs, keys}
use mathlib.Core.Path.{subst}
use iroh_nix.Plan.{DrvInfo, input_keys, topological_sort}
use iroh_nix.Plan.Counting.{needs, IsHashSet}
use iroh_nix.Plan.Rounds.{Done}
use iroh_nix.Plan.Order.{Follows, topological_sort-IsOrder}
use iroh_nix.Plan.Complete.{IsRank, topological_sort_complete}

-- One of the outputs is not among the paths that exist.
unfoldable pub lacks_one : List Bytes → List Bytes → Bool
lacks_one existing [] = false
lacks_one existing (o ∷ os) = not (contains existing o) || lacks_one existing os

-- The path is that of a derivation that is shown and has an output missing.
abbrev pub is_missing : List Bytes → Map Bytes DrvInfo → Bytes → Bool
is_missing existing drvs d = elim (lookup d drvs) [
  | none ↦ false
  | some info ↦ lacks_one existing info.outputs
]

-- The second is an input of the first.
abbrev pub is_input : Map Bytes DrvInfo → Bytes → Bytes → Bool
is_input drvs d i = elim (lookup d drvs) [
  | none ↦ false
  | some info ↦ contains (keys info.input_drvs) i
]

-- Every input that has an output missing comes before what needs it, where some have come already.
unfoldable pub InputsFirst : List Bytes → Map Bytes DrvInfo → List Bytes → List Bytes → Type 0
InputsFirst existing drvs before [] = Unit
InputsFirst existing drvs before (d ∷ ds) =
    ((i : Bytes)
      → is_input drvs d i ≡ true
      → is_missing existing drvs i ≡ true
      → contains before i ≡ true)
    × InputsFirst existing drvs (before ++ d ∷ []) ds

-- Each path with an output missing comes exactly once, no other comes, and inputs come first.
abbrev pub IsBuildOrder : List Bytes → Map Bytes DrvInfo → List Bytes → Type 0
IsBuildOrder existing drvs order =
    ((d : Bytes) → occurs d order ≡ (if is_missing existing drvs d then 1 else 0))
    × InputsFirst existing drvs [] order

-- No derivation is an input of itself, not even through others: each has a rank above its inputs.
abbrev pub IsAcyclic : Map Bytes DrvInfo → (Bytes → ℕ) → Type 0
IsAcyclic drvs rank = (d i : Bytes) → is_input drvs d i ≡ true → rank i < rank d

contains-kept :
    (p : Bytes → Bool) (i : Bytes) (xs : List Bytes)
    → contains (keep_if p xs) i ≡ (p i && contains xs i)
contains-kept p i [] = ground arith
contains-kept p i (x ∷ xs) = elim (Bool-cases (x == i)) [
  | inl e ↦
      let same : x ≡ i = (eq_bytes.beq_iff x i).0 e in
      ground (arith, e, ap p same, contains-kept p i xs)
  | inr e ↦ ground (arith, e, contains-kept p i xs)
]

Done-at :
    (before xs : List Bytes) (i : Bytes)
    → Done before xs
    → contains xs i ≡ true
    → contains before i ≡ true
Done-at before [] i h has = cc
Done-at before (x ∷ xs) i (hx, h) has = elim (Bool-cases (x == i)) [
  | inl e ↦ subst (λ y. contains before y ≡ true) ((eq_bytes.beq_iff x i).0 e) hx
  | inr e ↦ Done-at before xs i h (ground (arith, e, has))
]

module _ (existing : List Bytes) (drvs : Map Bytes DrvInfo) (to_build : List Bytes)
    (known : (d : Bytes) → contains to_build d ≡ is_missing existing drvs d) where
  contains-input_keys : (d i : Bytes) → contains (input_keys (lookup d drvs)) i ≡ is_input drvs d i
  unfolding input_keys
  contains-input_keys d i = elim (Option-cases (lookup d drvs)) [
    | inl e ↦ ground (arith, e)
    | inr (info, e) ↦ ground (arith, e)
  ]

  contains-needs :
      (d i : Bytes)
      → contains (needs drvs to_build d) i ≡ (is_missing existing drvs i && is_input drvs d i)
  contains-needs d i =
      contains-kept (contains to_build) i (input_keys (lookup d drvs))
      ∙ rw (known i, contains-input_keys d i) refl

  Follows-InputsFirst :
      (before order : List Bytes)
      → Follows (needs drvs to_build) before order
      → InputsFirst existing drvs before order
  unfolding InputsFirst
  Follows-InputsFirst before [] h = tt
  Follows-InputsFirst before (d ∷ ds) (done, h) = (
    λ i input missing.
        Done-at before (needs drvs to_build d) i done
          (contains-needs d i ∙ rw (missing, input) refl),
    Follows-InputsFirst (before ++ d ∷ []) ds h,
  )

  pub topological_sort-IsBuildOrder :
      (rank : Bytes → ℕ)
      → IsHashSet to_build
      → IsAcyclic drvs rank
      → (order : List Bytes) × (topological_sort drvs to_build ≡ some order)
        × IsBuildOrder existing drvs order
  topological_sort-IsBuildOrder rank unique below =
      let ranked : IsRank drvs to_build rank =
        λ d dep has. below d dep (ground (arith, has, contains-needs d dep)) in
      let (order, result, once) = topological_sort_complete drvs to_build rank unique ranked in
      let (order', result', is_order) = topological_sort-IsOrder drvs to_build unique in
      let same : order' ≡ order = ground (arith, result, result') in
      (
        order,
        result,
        (
          λ d. once d ∙ ap (λ (b : Bool). if b then 1 else 0) (known d),
          Follows-InputsFirst [] order
              (subst (λ o. Follows (needs drvs to_build) [] o) same is_order.behind),
        ),
      )
