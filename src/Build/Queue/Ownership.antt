-- ===== src/Build/Queue/Ownership.antt =====
-- Who may end or renew a lease of the build queue of iroh-nix/src/build.rs.
use iroh_nix.Support.{
  ℕ, ◌≡◌, refl, inl, inr, Bool, true, false, none, some, [], ◌∷◌, ◌++◌, arith, if◌then◌else◌,
  Option-cases, Bytes, Eq, ◌==◌, eq_nat, eq_bytes, ==-refl,
}
use mathlib.Core.Path.{subst}
use iroh_nix.Support.Maps.{lookup, insert, erase, lookup-insert, lookup-erase}
use iroh_nix.Build.Types.{JobId, LeasedJob, BuildResult, completed, failed, BuildQueue}
use iroh_nix.Build.Queue.{heartbeat, complete, fail, get_outcome}
use iroh_nix.Build.Queue.Calls.{holds}

module _ {EndpointId Sender : Type 0} where
  -- Two queues that no lookup and no list tells apart.
  pub record SameQueue (p q : BuildQueue EndpointId Sender) : Type 0 where
    pub pending : p.pending ≡ q.pending
    pub leased : (id : JobId) → lookup id p.leased ≡ lookup id q.leased
    pub finished : p.finished ≡ q.finished
    pub pending_fetch : p.pending_fetch ≡ q.pending_fetch
    pub next_job_id : p.next_job_id ≡ q.next_job_id

module _ {EndpointId Sender : Type 0} ⦃e : Eq EndpointId⦄ (q : BuildQueue EndpointId Sender) where
  put_back :
      (j id : JobId) (l : LeasedJob EndpointId)
      → lookup j q.leased ≡ some l
      → lookup id (insert j l (erase j q.leased)) ≡ lookup id q.leased
  put_back j id l h = ground (
    arith,
    lookup-insert j id l (erase j q.leased),
    lookup-erase j id q.leased,
    h,
    eq_nat.beq_iff j id,
  )

  -- The call reports false, and nothing that can be looked up has changed.
  abbrev pub Refused : BuildQueue EndpointId Sender × Bool → Type 0
  Refused r = (r.1 ≡ false) × SameQueue r.0 q

  pub Refused-here : Refused (q, false)
  Refused-here = (
    refl,
    record {
      pending = refl;
      leased = λ id. refl;
      finished = refl;
      pending_fetch = refl;
      next_job_id = refl;
    },
  )

  Refused-back :
      (j : JobId) (l : LeasedJob EndpointId)
      → lookup j q.leased ≡ some l
      → Refused (record q { leased = insert j l (erase j q.leased) }, false)
  Refused-back j l h = (
    refl,
    record {
      pending = refl;
      leased = λ id. put_back j id l h;
      finished = refl;
      pending_fetch = refl;
      next_job_id = refl;
    },
  )

  complete-Refused :
      (j : JobId) (builder : EndpointId) (result : BuildResult)
      → holds q j builder ≡ false
      → Refused (complete q j builder result)
  unfolding complete holds
  complete-Refused j builder result h = elim (Option-cases (lookup j q.leased)) [
    | inl none_there ↦ subst Refused (ground (arith, none_there)) Refused-here
    | inr (l, there) ↦ subst Refused (ground (arith, there)) (Refused-back j l there)
  ]

  fail-Refused :
      (j : JobId) (builder : EndpointId) (error : Bytes)
      → holds q j builder ≡ false
      → Refused (fail q j builder error)
  unfolding fail holds
  fail-Refused j builder error h = elim (Option-cases (lookup j q.leased)) [
    | inl none_there ↦ subst Refused (ground (arith, none_there)) Refused-here
    | inr (l, there) ↦ subst Refused (ground (arith, there)) (Refused-back j l there)
  ]

  heartbeat-Refused :
      (now : ℕ) (j : JobId) (builder : EndpointId) (status : Bytes)
      → holds q j builder ≡ false
      → Refused (heartbeat now q j builder status)
  unfolding heartbeat holds
  heartbeat-Refused now j builder status h = elim (Option-cases (lookup j q.leased)) [
    | inl none_there ↦ subst Refused (ground (arith, none_there)) Refused-here
    | inr (l, there) ↦ subst Refused (ground (arith, there)) Refused-here
  ]

  -- A heartbeat, a completion or a failure that comes from a builder which does not hold the
  -- job's lease reports false and changes nothing: not what is pending, not the lease found under
  -- any id, not an outcome, not the results to fetch, not the next id.
  pub stranger-Refused :
      (now : ℕ) (j : JobId) (builder : EndpointId) (status error : Bytes) (result : BuildResult)
      → holds q j builder ≡ false
      → Refused (heartbeat now q j builder status)
        × Refused (complete q j builder result)
        × Refused (fail q j builder error)
  stranger-Refused now j builder status error result h = (
    heartbeat-Refused now j builder status h,
    complete-Refused j builder result h,
    fail-Refused j builder error h,
  )

  -- The builder that holds the job's lease completes it with true: the lease is gone, the other
  -- leases and the pending jobs are as before, the result is the last of those to fetch, and the
  -- outcome found under the hash of the leased derivation is that result.
  pub complete_held :
      (j : JobId) (builder : EndpointId) (result : BuildResult)
      → holds q j builder ≡ true
      → (l : LeasedJob EndpointId) × (lookup j q.leased ≡ some l)
        × ((complete q j builder result).1 ≡ true)
        × ((id : JobId)
            → lookup id (complete q j builder result).0.leased
              ≡ (if j == id then none else lookup id q.leased))
        × ((complete q j builder result).0.pending ≡ q.pending)
        × ((complete q j builder result).0.pending_fetch ≡ q.pending_fetch ++ result ∷ [])
        × (get_outcome (complete q j builder result).0 l.job.drv_hash ≡ some (completed result))
  unfolding complete holds get_outcome
  complete_held j builder result h = elim (Option-cases (lookup j q.leased)) [
    | inl none_there ↦ ground (arith, none_there)
    | inr (l, there) ↦ (
      l,
      there,
      ground (arith, there),
      λ id. ground (arith, there, lookup-erase j id q.leased),
      ground (arith, there),
      ground (arith, there),
      ground (
        arith,
        there,
        lookup-insert l.job.drv_hash l.job.drv_hash (completed result) q.finished,
        ==-refl l.job.drv_hash,
      ),
    )
  ]

  pub fail_held :
      (j : JobId) (builder : EndpointId) (error : Bytes) (l : LeasedJob EndpointId)
      → lookup j q.leased ≡ some l
      → l.builder ≡ builder
      → (lookup j (fail q j builder error).0.leased ≡ none)
        × ((fail q j builder error).0.pending ≡ q.pending)
        × (get_outcome (fail q j builder error).0 l.job.drv_hash ≡ some (failed builder error))
  unfolding fail get_outcome
  fail_held j builder error l there own =
      let same = (e.beq_iff l.builder builder).1 own in
      (
        ground (arith, there, same, lookup-erase j j q.leased, ==-refl j),
        ground (arith, there, same),
        ground (
          arith,
          there,
          same,
          lookup-insert l.job.drv_hash l.job.drv_hash (failed builder error) q.finished,
          ==-refl l.job.drv_hash,
        ),
      )
