-- ===== src/Plan/Order.antt =====
-- The order in which `topological_sort` of iroh-nix/src/main.rs puts the derivations.
use iroh_nix.Support.{
  ℕ, zero, suc, ◌+◌, ◌≤◌, ◌≡◌, refl, sym, false, some, List, [], ◌∷◌, ◌++◌, append-nil,
  append_assoc, arith, if◌then◌else◌, Bytes, eq_nat, eq_bytes, ==-refl, contains, length,
}
use mathlib.Core.Path.{subst}
use iroh_nix.Support.Maps.{Map, lookup}
use iroh_nix.Support.Counts.{occurs, occurs-append, occurs-singleton, contains-occurs}
use iroh_nix.Plan.{
  DrvInfo, Pending, is_zero, ready, release_all, or_empty, kahn, degrees_of, topological_sort,
}
use iroh_nix.Plan.Counting.{
  needs, IsHashSet, degrees_of-degree, degrees_of-edges, degrees_of-IsUnique,
}
use iroh_nix.Plan.Rounds.{
  missing-nothing, missing-append, Done, Done-missing, flag, waiting, length-ready, occurs-ready,
  IsLeft, IsLeft-release_all,
}

module _ (needed : Bytes → List Bytes) where
  -- Each of the listed stands behind all that it needs, where some are done before.
  abbrev pub Follows : List Bytes → List Bytes → Type 0
  Follows done [] = Unit
  Follows done (d ∷ ds) = Done done (needed d) × Follows (done ++ d ∷ []) ds

  Follows-snoc :
      (done ds : List Bytes) (d : Bytes)
      → Follows done ds
      → Done (done ++ ds) (needed d)
      → Follows done (ds ++ d ∷ [])
  Follows-snoc done [] d h last = (subst (λ xs. Done xs (needed d)) (append-nil done) last, tt)
  Follows-snoc done (x ∷ ds) d (hx, h) last = (
    hx,
    Follows-snoc (done ++ x ∷ []) ds d h
        (subst (λ xs. Done xs (needed d)) (sym (append_assoc done (x ∷ []) ds)) last),
  )

  module _ (to_build : List Bytes) (dependents : Map Bytes (List Bytes)) where
    abbrev pub state : Map Bytes ℕ → List Bytes → Pending
    state degrees queue = record { degrees = degrees; queue = queue }

    abbrev IsDependents : Type 0
    IsDependents =
        (x j : Bytes)
        → occurs j (or_empty (lookup x dependents))
          ≡ (if contains to_build j then occurs x (needed j) else 0)

    head_flag :
        (degrees : Map Bytes ℕ) (node : Bytes) (queue result : List Bytes)
        → IsLeft to_build needed result [] (state degrees (node ∷ queue))
        → (occurs node result ≡ 0) × (flag (lookup node degrees) ≡ 1)
    unfolding occurs is_zero
    head_flag degrees node queue result h = ground (arith, h.queued node, ==-refl node)

    head_Done :
        (degrees : Map Bytes ℕ) (node : Bytes) (queue result : List Bytes)
        → IsLeft to_build needed result [] (state degrees (node ∷ queue))
        → Done result (needed node)
    unfolding occurs is_zero
    head_Done degrees node queue result h =
        Done-missing result (needed node)
          (ground (arith, h.degree node, head_flag degrees node queue result h))

    IsLeft-pop :
        (degrees : Map Bytes ℕ) (node : Bytes) (queue result : List Bytes)
        → IsDependents
        → IsLeft to_build needed result [] (state degrees (node ∷ queue))
        → IsLeft to_build needed
            (result ++ node ∷ [])
            (or_empty (lookup node dependents))
            (state degrees queue)
    unfolding occurs
    IsLeft-pop degrees node queue result deps h =
        let (fresh, zeroed) = head_flag degrees node queue result h in
        let unseen : contains result node ≡ false =
          ground (arith, contains-occurs node result, fresh) in
        record {
          degree = λ j.
              ground (arith, h.degree j, deps node j, missing-append node result (needed j) unseen);
          queued = λ j.
              ground
                (arith, h.queued j, occurs-append j result (node ∷ []), occurs-singleton j node);
        }

    -- The loop ends with an order in which nothing is left that could be built.
    abbrev pub Ended : List Bytes → Type 0
    Ended order =
        Follows [] order
        × (degrees : Map Bytes ℕ) × IsLeft to_build needed order [] (state degrees [])

    kahn_ends :
        (fuel : ℕ) (degrees : Map Bytes ℕ) (queue result : List Bytes)
        → IsDependents
        → IsLeft to_build needed result [] (state degrees queue)
        → Follows [] result
        → waiting degrees + length queue ≤ fuel
        → (order : List Bytes) × (kahn dependents fuel degrees queue result ≡ some order)
          × Ended order
    unfolding kahn
    kahn_ends fuel degrees [] result deps h behind enough = (result, refl, (behind, degrees, h))
    kahn_ends zero degrees (node ∷ queue) result deps h behind enough = absurd (omega arith)
    kahn_ends (suc fuel) degrees (node ∷ queue) result deps h behind enough =
        let popped = IsLeft-pop degrees node queue result deps h in
        let (next, same) =
          IsLeft-release_all to_build needed (result ++ node ∷ [])
            (or_empty (lookup node dependents)) (state degrees queue) popped in
        let after = release_all (or_empty (lookup node dependents)) (state degrees queue) in
        kahn_ends fuel after.degrees after.queue (result ++ node ∷ []) deps next
          (Follows-snoc [] result node behind (head_Done degrees node queue result h))
          (omega (arith, same))

module _ (drvs : Map Bytes DrvInfo) (to_build : List Bytes) where
  start :
      IsHashSet to_build
      → IsLeft to_build (needs drvs to_build) [] [] (record {
        degrees = (degrees_of drvs to_build).in_degree;
        queue = ready (degrees_of drvs to_build).in_degree;
      })
  unfolding occurs
  start h = record {
    degree = λ j.
        ground
          (arith, degrees_of-degree drvs to_build j h, missing-nothing (needs drvs to_build j));
    queued = λ j. omega (
      arith,
      occurs-ready j (degrees_of drvs to_build).in_degree (degrees_of-IsUnique drvs to_build),
    );
  }

  pub sorted :
      IsHashSet to_build
      → (order : List Bytes) × (topological_sort drvs to_build ≡ some order)
        × Ended (needs drvs to_build) to_build (degrees_of drvs to_build).dependents order
  unfolding topological_sort
  sorted h =
      let d = degrees_of drvs to_build in
      kahn_ends (needs drvs to_build) to_build d.dependents (length d.in_degree) d.in_degree
        (ready d.in_degree) [] (λ x j. degrees_of-edges drvs to_build x j h) (start h) tt
        (omega (arith, length-ready d.in_degree))

  -- An order of derivations: of those to build, none twice, and each behind all of its inputs that are
  -- to be built.
  pub record IsOrder (order : List Bytes) : Type 0 where
    pub once : (d : Bytes) → occurs d order ≤ (if contains to_build d then 1 else 0)
    pub behind : Follows (needs drvs to_build) [] order

  Ended-IsOrder :
      (order : List Bytes)
      → Ended (needs drvs to_build) to_build (degrees_of drvs to_build).dependents order
      → IsOrder order
  unfolding occurs is_zero
  Ended-IsOrder order (behind, degrees, h) = record {
    once = λ d. ground (arith, h.queued d, h.degree d);
    behind = behind;
  }

  -- On a set of paths to build the loop ends, and gives an order of them: each path comes once at most, and
  -- behind every input of its derivation that is to be built as well.
  pub topological_sort-IsOrder :
      IsHashSet to_build
      → (order : List Bytes) × (topological_sort drvs to_build ≡ some order) × IsOrder order
  topological_sort-IsOrder h =
      let (order, result, ended) = sorted h in (order, result, Ended-IsOrder order ended)
