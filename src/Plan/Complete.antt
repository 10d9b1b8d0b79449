-- ===== src/Plan/Complete.antt =====
-- What `topological_sort` of iroh-nix/src/main.rs leaves out: nothing, where no derivation needs itself.
use iroh_nix.Support.{
  ℕ, zero, suc, ◌<◌, ◌≡◌, inl, inr, Bool, true, false, some, List, [], ◌∷◌, arith, if◌then◌else◌,
  Bool-cases, Bytes, eq_nat, eq_bytes, ==-refl, contains, All, keep_if,
}
use iroh_nix.Support.Maps.{Map}
use iroh_nix.Support.Counts.{occurs, contains-occurs}
use iroh_nix.Plan.{DrvInfo, is_zero, topological_sort}
use iroh_nix.Plan.Counting.{needs, IsHashSet}
use iroh_nix.Plan.Rounds.{missing-Done, Done, IsLeft}
use iroh_nix.Plan.Order.{sorted}

pub All-contained :
    (P : Bytes → Type 0) (xs : List Bytes) → ((x : Bytes) → contains xs x ≡ true → P x) → All P xs
All-contained P [] h = tt
All-contained P (x ∷ xs) h =
    (h x (ground (arith, ==-refl x)), All-contained P xs (λ y e. h y (ground (arith, e))))

contains-keep_if :
    (p : Bytes → Bool) (x : Bytes) (xs : List Bytes) → contains (keep_if p xs) x ≡ true → p x ≡ true
contains-keep_if p x [] h = cc
contains-keep_if p x (y ∷ xs) h = ground (arith, eq_bytes.beq_iff y x, h, contains-keep_if p x xs)

module _ (drvs : Map Bytes DrvInfo) (to_build : List Bytes) where
  -- A rank that every derivation has above all of its inputs to build: there is no cycle.
  abbrev pub IsRank : (Bytes → ℕ) → Type 0
  IsRank rank = (d dep : Bytes) → contains (needs drvs to_build d) dep ≡ true → rank dep < rank d

  all_done :
      (order : List Bytes) (degrees : Map Bytes ℕ)
      → IsLeft to_build (needs drvs to_build) order [] (record { degrees = degrees; queue = [] })
      → (rank : Bytes → ℕ) → IsRank rank
      → (bound : ℕ) (d : Bytes) → rank d < bound
      → contains to_build d ≡ true
      → occurs d order ≡ 1
  unfolding occurs is_zero
  all_done order degrees h rank below zero d small built = absurd (omega arith)
  all_done order degrees h rank below (suc bound) d small built =
      let inputs : Done order (needs drvs to_build d) =
        All-contained (λ x. contains order x ≡ true) (needs drvs to_build d)
          (λ x has.
            let once =
              all_done order degrees h rank below bound x (omega (arith, below d x has))
                (contains-keep_if (contains to_build) x _ has) in
            ground (arith, contains-occurs x order, once)) in
      ground
        (arith, h.queued d, h.degree d, built, missing-Done order (needs drvs to_build d) inputs)

  not_built :
      (order : List Bytes) (degrees : Map Bytes ℕ) (d : Bytes)
      → IsLeft to_build (needs drvs to_build) order [] (record { degrees = degrees; queue = [] })
      → contains to_build d ≡ false
      → occurs d order ≡ 0
  unfolding occurs is_zero
  not_built order degrees d h other = ground (arith, h.queued d, h.degree d, other)

  -- Where no derivation needs itself, not even through others, the order has every path to build exactly
  -- once, and no other path.
  pub topological_sort_complete :
      (rank : Bytes → ℕ)
      → IsHashSet to_build
      → IsRank rank
      → (order : List Bytes) × (topological_sort drvs to_build ≡ some order)
        × ((d : Bytes) → occurs d order ≡ (if contains to_build d then 1 else 0))
  topological_sort_complete rank unique below =
      let (order, result, (behind, degrees, h)) = sorted drvs to_build unique in
      (
        order,
        result,
        λ d. elim (Bool-cases (contains to_build d)) [
          | inl built ↦
              rw built (all_done order degrees h rank below (suc (rank d)) d (omega arith) built)
          | inr other ↦ rw other (not_built order degrees d h other)
        ],
      )
