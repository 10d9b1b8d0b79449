-- ===== src/Plan/Counting.antt =====
-- The degrees that `topological_sort` of iroh-nix/src/main.rs counts.
use iroh_nix.Support.{
  ℕ, ◌+◌, ◌≤◌, ◌≡◌, refl, inl, inr, ◌&&◌, Option, none, some, List, [], ◌∷◌, ◌++◌, arith,
  if◌then◌else◌, Bool-cases, Option-cases, Bytes, ◌==◌, eq_nat, eq_bytes, ==-refl, contains, length,
  keep_if,
}
use iroh_nix.Support.Maps.{Map, lookup, insert, lookup-insert}
use iroh_nix.Support.Counts.{
  occurs, occurs-append, occurs-singleton, contains-occurs, keys, IsUnique, IsUnique-insert,
}
use iroh_nix.Plan.{
  DrvInfo, Degrees, or_zero, or_empty, add_edge, add_edges, input_keys, add_drv, count_degrees,
  degrees_of,
}

-- The inputs of a derivation that have to be built too.
abbrev pub needs : Map Bytes DrvInfo → List Bytes → Bytes → List Bytes
needs drvs to_build d = keep_if (contains to_build) (input_keys (lookup d drvs))

-- A `HashSet` has no element twice.
abbrev pub IsHashSet : List Bytes → Type 0
IsHashSet xs = (x : Bytes) → occurs x xs ≤ 1

abbrev pub degree : Degrees → Bytes → Option ℕ
degree d j = lookup j d.in_degree

abbrev pub edges : Degrees → Bytes → Bytes → ℕ
edges d dep j = occurs j (or_empty (lookup dep d.dependents))

module _ (to_build : List Bytes) (p : Bytes) where
  add_edge-degree :
      (dep j : Bytes) (d : Degrees) (n : ℕ)
      → degree d p ≡ some n
      → degree (add_edge to_build p dep d) j
        ≡ (if p == j then some (n + (if contains to_build dep then 1 else 0)) else degree d j)
  unfolding add_edge or_zero
  add_edge-degree dep j d n h =
      ground
        (arith, lookup-insert p j (or_zero (degree d p) + 1) d.in_degree, h, eq_bytes.beq_iff p j)

  add_edge-edges :
      (dep x j : Bytes) (d : Degrees)
      → edges (add_edge to_build p dep d) x j
        ≡ edges d x j + (if contains to_build dep && (dep == x) && (p == j) then 1 else 0)
  unfolding add_edge or_empty
  add_edge-edges dep x j d = ground (
    arith,
    lookup-insert dep x (or_empty (lookup dep d.dependents) ++ p ∷ []) d.dependents,
    eq_bytes.beq_iff dep x,
    occurs-append j (or_empty (lookup dep d.dependents)) (p ∷ []),
    occurs-singleton j p,
  )

  add_edges-degree :
      (deps : List Bytes) (j : Bytes) (d : Degrees) (n : ℕ)
      → degree d p ≡ some n
      → degree (add_edges to_build p deps d) j
        ≡ (if p == j then some (n + length (keep_if (contains to_build) deps)) else degree d j)
  unfolding add_edges
  add_edges-degree [] j d n h = ground (arith, h, eq_bytes.beq_iff p j)
  add_edges-degree (dep ∷ deps) j d n h =
      let one = add_edge-degree dep p d n h in
      ground (
        arith,
        add_edge-degree dep j d n h,
        one,
        ==-refl p,
        add_edges-degree deps j (add_edge to_build p dep d)
            (n + (if contains to_build dep then 1 else 0)),
      )

  add_edges-edges :
      (deps : List Bytes) (x j : Bytes) (d : Degrees)
      → edges (add_edges to_build p deps d) x j
        ≡ edges d x j + (if p == j then occurs x (keep_if (contains to_build) deps) else 0)
  unfolding add_edges occurs
  add_edges-edges [] x j d = ground arith
  add_edges-edges (dep ∷ deps) x j d =
      ground (arith, add_edge-edges dep x j d, add_edges-edges deps x j (add_edge to_build p dep d))

module _ (drvs : Map Bytes DrvInfo) (to_build : List Bytes) where
  add_drv-degree :
      (p j : Bytes) (d : Degrees)
      → degree d p ≡ none
      → degree (add_drv drvs to_build p d) j
        ≡ (if p == j then some (length (needs drvs to_build p)) else degree d j)
  unfolding add_drv or_zero
  add_drv-degree p j d h =
      let start : Degrees = record {
        in_degree = insert p (or_zero (degree d p)) d.in_degree;
        dependents = d.dependents;
      } in
      ground (
        arith,
        h,
        ==-refl p,
        lookup-insert p p (or_zero (degree d p)) d.in_degree,
        lookup-insert p j (or_zero (degree d p)) d.in_degree,
        add_edges-degree to_build p (input_keys (lookup p drvs)) j start 0,
      )

  add_drv-edges :
      (p x j : Bytes) (d : Degrees)
      → edges (add_drv drvs to_build p d) x j
        ≡ edges d x j + (if p == j then occurs x (needs drvs to_build p) else 0)
  unfolding add_drv
  add_drv-edges p x j d = add_edges-edges to_build p (input_keys (lookup p drvs)) x j _

  -- None of these paths has been counted yet, and none is there twice.
  abbrev Fresh : List Bytes → Degrees → Type 0
  Fresh ps d = (j : Bytes) → occurs j ps + (elim (degree d j) [ none ↦ 0 | some n ↦ 1 ]) ≤ 1

  Fresh-none : (p : Bytes) (ps : List Bytes) (d : Degrees) → Fresh (p ∷ ps) d → degree d p ≡ none
  unfolding occurs
  Fresh-none p ps d h = elim (Option-cases (degree d p)) [
    | inl e ↦ e
    | inr (n, e) ↦ absurd (ground (arith, e, ==-refl p, h p))
  ]

  Fresh-rest :
      (p : Bytes) (ps : List Bytes) (d : Degrees)
      → Fresh (p ∷ ps) d
      → Fresh ps (add_drv drvs to_build p d)
  unfolding occurs
  Fresh-rest p ps d h j =
      ground (arith, h j, add_drv-degree p j d (Fresh-none p ps d h), eq_bytes.beq_iff p j)

  count_degrees-degree :
      (ps : List Bytes) (j : Bytes) (d : Degrees)
      → Fresh ps d
      → degree (count_degrees drvs to_build ps d) j
        ≡ (if contains ps j then some (length (needs drvs to_build j)) else degree d j)
  unfolding count_degrees
  count_degrees-degree [] j d h = refl
  count_degrees-degree (p ∷ ps) j d h = ground (
    arith,
    eq_bytes.beq_iff p j,
    add_drv-degree p j d (Fresh-none p ps d h),
    count_degrees-degree ps j (add_drv drvs to_build p d) (Fresh-rest p ps d h),
  )

  count_degrees-edges :
      (ps : List Bytes) (x j : Bytes) (d : Degrees)
      → Fresh ps d
      → edges (count_degrees drvs to_build ps d) x j
        ≡ edges d x j + (if contains ps j then occurs x (needs drvs to_build j) else 0)
  unfolding count_degrees occurs
  count_degrees-edges [] x j d h = omega arith
  count_degrees-edges (p ∷ ps) x j d h = ground (
    arith,
    eq_bytes.beq_iff p j,
    h j,
    contains-occurs j ps,
    add_drv-edges p x j d,
    count_degrees-edges ps x j (add_drv drvs to_build p d) (Fresh-rest p ps d h),
  )

  -- The keys stay unique.
  add_edges-IsUnique :
      (p : Bytes) (deps : List Bytes) (d : Degrees)
      → IsUnique d.in_degree
      → IsUnique (add_edges to_build p deps d).in_degree
  unfolding add_edges add_edge
  add_edges-IsUnique p [] d h = h
  add_edges-IsUnique p (dep ∷ deps) d h =
      add_edges-IsUnique p deps (add_edge to_build p dep d)
        (elim (Bool-cases (contains to_build dep)) [
          | inl e ↦ rw (e, add_edge) (IsUnique-insert p (or_zero (degree d p) + 1) d.in_degree h)
          | inr e ↦ rw (e, add_edge) h
        ])

  count_degrees-IsUnique :
      (ps : List Bytes) (d : Degrees)
      → IsUnique d.in_degree
      → IsUnique (count_degrees drvs to_build ps d).in_degree
  unfolding count_degrees add_drv
  count_degrees-IsUnique [] d h = h
  count_degrees-IsUnique (p ∷ ps) d h = count_degrees-IsUnique ps (add_drv drvs to_build p d) (
      add_edges-IsUnique p (input_keys (lookup p drvs)) _
        (IsUnique-insert p (or_zero (degree d p)) d.in_degree h))

  -- A path to build has as its degree the number of its inputs to build, and is among the dependents of
  -- each of them.
  pub degrees_of-degree :
      (j : Bytes)
      → IsHashSet to_build
      → lookup j (degrees_of drvs to_build).in_degree
        ≡ (if contains to_build j then some (length (needs drvs to_build j)) else none)
  unfolding degrees_of lookup
  degrees_of-degree j h =
      count_degrees-degree to_build j (record { in_degree = []; dependents = [] })
        (λ i. omega (arith, h i))

  pub degrees_of-edges :
      (x j : Bytes)
      → IsHashSet to_build
      → occurs j (or_empty (lookup x (degrees_of drvs to_build).dependents))
        ≡ (if contains to_build j then occurs x (needs drvs to_build j) else 0)
  unfolding degrees_of lookup or_empty occurs
  degrees_of-edges x j h = omega (
    arith,
    count_degrees-edges to_build x j (record { in_degree = []; dependents = [] })
        (λ i. omega (arith, h i)),
  )

  pub degrees_of-IsUnique : IsUnique (degrees_of drvs to_build).in_degree
  unfolding degrees_of keys occurs
  degrees_of-IsUnique =
      count_degrees-IsUnique to_build (record { in_degree = []; dependents = [] })
        (λ k. omega arith)
