-- ===== src/Build/Queue/InFlight.antt =====
-- How often a job id is pending or leased in the build queue of iroh-nix/src/build.rs: the counts,
-- and what the list and map operations do to them.
use iroh_nix.Support.{
  ℕ, ◌+◌, ◌≤◌, ◌≡◌, refl, inl, inr, Bool, true, false, none, some, List, [], ◌∷◌, ◌++◌, map,
  reverse, arith, if◌then◌else◌, Bool-cases, ◌==◌, eq_nat, eq_bytes,
}
use mathlib.Core.List.{reverse-cons}
use iroh_nix.Support.Maps.{Map, lookup, insert, erase}
use iroh_nix.Build.Types.{JobId, BuildJob, LeasedJob, BuildQueue}
use iroh_nix.Build.Queue.Timeouts.{late_leases, kept_leases, lease_job}

abbrev pub one_if : Bool → ℕ
one_if true = 1
one_if false = 0

unfoldable pub count_jobs : JobId → List BuildJob → ℕ
count_jobs id [] = 0
count_jobs id (j ∷ js) = one_if (j.id == id) + count_jobs id js

pub count_jobs-append :
    (id : JobId) (xs ys : List BuildJob)
    → count_jobs id (xs ++ ys) ≡ count_jobs id xs + count_jobs id ys
unfolding count_jobs
count_jobs-append id [] ys = omega arith
count_jobs-append id (x ∷ xs) ys = omega (arith, count_jobs-append id xs ys)

count_jobs-reverse :
    (id : JobId) (xs : List BuildJob) → count_jobs id (reverse xs) ≡ count_jobs id xs
unfolding count_jobs
count_jobs-reverse id [] = refl
count_jobs-reverse id (x ∷ xs) =
    rw (reverse-cons x xs)
      (omega (arith, count_jobs-append id (reverse xs) (x ∷ []), count_jobs-reverse id xs))

module _ {EndpointId : Type 0} where
  unfoldable pub count_leases : JobId → Map JobId (LeasedJob EndpointId) → ℕ
  count_leases id [] = 0
  count_leases id ((k, l) ∷ m) = one_if (k == id) + count_leases id m

  -- Each lease stands under the id of its job.
  abbrev pub IsNamed : Map JobId (LeasedJob EndpointId) → Type 0
  IsNamed [] = Unit
  IsNamed ((k, l) ∷ m) = (l.job.id ≡ k) × IsNamed m

  pub count_leases-insert :
      (id k : JobId) (l : LeasedJob EndpointId) (m : Map JobId (LeasedJob EndpointId))
      → count_leases id (insert k l m)
        ≡ count_leases id m + (elim (lookup k m) [ none ↦ one_if (k == id) | some v ↦ 0 ])
  unfolding count_leases insert lookup
  count_leases-insert id k l [] = ground arith
  count_leases-insert id k l ((j, v) ∷ m) = ground (arith, count_leases-insert id k l m)

  pub count_leases-erase :
      (id k : JobId) (m : Map JobId (LeasedJob EndpointId))
      → count_leases id (erase k m) ≡ (if k == id then 0 else count_leases id m)
  unfolding count_leases erase
  count_leases-erase id k [] = ground arith
  count_leases-erase id k ((j, v) ∷ m) = ground (arith, count_leases-erase id k m)

  -- A key that is found is counted.
  pub lookup-count :
      (id : JobId) (m : Map JobId (LeasedJob EndpointId))
      → count_leases id m ≡ 0
      → lookup id m ≡ none
  unfolding count_leases lookup
  lookup-count id [] h = refl
  lookup-count id ((j, v) ∷ m) h = ground (arith, lookup-count id m)

  pub count-lookup :
      (id : JobId) {l : LeasedJob EndpointId} (m : Map JobId (LeasedJob EndpointId))
      → lookup id m ≡ some l
      → 1 ≤ count_leases id m
  unfolding count_leases lookup
  count-lookup id {l} [] h = ground arith
  count-lookup id {l} ((j, v) ∷ m) h = ground (arith, count-lookup id {l = l} m)

  pub count_leases_split :
      (id now : ℕ) (m : Map JobId (LeasedJob EndpointId))
      → count_leases id m
        ≡ count_leases id (kept_leases now m) + count_leases id (late_leases now m)
  unfolding count_leases
  count_leases_split id now [] = omega arith
  count_leases_split id now ((k, l) ∷ m) = ground (arith, count_leases_split id now m)

  count_late :
      (id now : ℕ) (m : Map JobId (LeasedJob EndpointId))
      → IsNamed m
      → count_jobs id (map lease_job (late_leases now m)) ≡ count_leases id (late_leases now m)
  unfolding count_leases count_jobs
  count_late id now [] h = refl
  count_late id now ((k, l) ∷ m) (e, h) = ground (arith, count_late id now m h)

  pub count_returned :
      (id now : ℕ) (m : Map JobId (LeasedJob EndpointId))
      → IsNamed m
      → count_jobs id (reverse (map lease_job (late_leases now m)))
        ≡ count_leases id (late_leases now m)
  count_returned id now m h =
      rw (count_jobs-reverse id (map lease_job (late_leases now m))) (count_late id now m h)

  pub IsNamed-kept :
      (now : ℕ) (m : Map JobId (LeasedJob EndpointId)) → IsNamed m → IsNamed (kept_leases now m)
  IsNamed-kept now [] h = tt
  IsNamed-kept now ((k, l) ∷ m) (e, h) = ground (arith, IsNamed-kept now m h)

  pub IsNamed-insert :
      (k : JobId) (l : LeasedJob EndpointId) (m : Map JobId (LeasedJob EndpointId))
      → l.job.id ≡ k
      → IsNamed m
      → IsNamed (insert k l m)
  unfolding insert
  IsNamed-insert k l [] e h = (e, tt)
  IsNamed-insert k l ((j, v) ∷ m) e (f, h) = elim (Bool-cases (j == k)) [
    | inl same ↦ rw same (e, h)
    | inr other ↦ rw other (f, IsNamed-insert k l m e h)
  ]

  pub IsNamed-erase :
      (k : JobId) (m : Map JobId (LeasedJob EndpointId)) → IsNamed m → IsNamed (erase k m)
  unfolding erase
  IsNamed-erase k [] h = tt
  IsNamed-erase k ((j, v) ∷ m) (f, h) = elim (Bool-cases (j == k)) [
    | inl same ↦ rw same (IsNamed-erase k m h)
    | inr other ↦ rw other (f, IsNamed-erase k m h)
  ]

  pub IsNamed-lookup :
      (k : JobId) {l : LeasedJob EndpointId} (m : Map JobId (LeasedJob EndpointId))
      → IsNamed m
      → lookup k m ≡ some l
      → l.job.id ≡ k
  unfolding lookup
  IsNamed-lookup k {l} [] h e = ground arith
  IsNamed-lookup k {l} ((j, v) ∷ m) (f, h) e = ground (arith, IsNamed-lookup k {l = l} m h)

module _ {EndpointId Sender : Type 0} where
  -- How often an id is pending or leased.
  unfoldable pub in_flight : JobId → BuildQueue EndpointId Sender → ℕ
  in_flight id q = count_jobs id q.pending + count_leases id q.leased
