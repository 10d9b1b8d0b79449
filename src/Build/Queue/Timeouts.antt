-- ===== src/Build/Queue/Timeouts.antt =====
-- What `check_timeouts` of iroh-nix/src/build.rs returns to the queue.
use mathlib.Core.List.{reverse-cons}
use iroh_nix.Support.{
  ℕ, ◌+◌, ◌*◌, ◌^◌, ◌≡◌, refl, inl, inr, Bool, not, List, [], ◌∷◌, ◌++◌, map, reverse, append_assoc,
  arith, ltb, Bool-cases, eq_nat, eq_bytes, keep_if,
}
use iroh_nix.Support.Maps.{Map}
use iroh_nix.Build.Types.{JobId, LeasedJob, BuildJob, BuildQueue}
use iroh_nix.Build.Queue.{is_late, retain_leases, check_timeouts}

module _ {EndpointId : Type 0} where
  -- More than sixty seconds have gone by since the last heartbeat. The clock counts nanoseconds.
  abbrev pub is_overdue : ℕ → LeasedJob EndpointId → Bool
  is_overdue now l = ltb (l.last_heartbeat + 60 * 10 ^ 9) now

  is_late-overdue : (now : ℕ) (l : LeasedJob EndpointId) → is_late now l ≡ is_overdue now l
  unfolding is_late
  is_late-overdue now l = ground arith

  abbrev pub late_leases : ℕ → Map JobId (LeasedJob EndpointId) → Map JobId (LeasedJob EndpointId)
  late_leases now = keep_if (λ (id, l). is_overdue now l)

  abbrev pub kept_leases : ℕ → Map JobId (LeasedJob EndpointId) → Map JobId (LeasedJob EndpointId)
  kept_leases now = keep_if (λ (id, l). not (is_overdue now l))

  abbrev pub lease_id : JobId × LeasedJob EndpointId → JobId
  lease_id (id, l) = id

  abbrev pub lease_job : JobId × LeasedJob EndpointId → BuildJob
  lease_job (id, l) = l.job

  retain_leases_lem :
      (now : ℕ) (m : Map JobId (LeasedJob EndpointId)) (pending : List BuildJob)
      → retain_leases now m pending ≡ (
        kept_leases now m,
        reverse (map lease_job (late_leases now m)) ++ pending,
        map lease_id (late_leases now m),
      )
  unfolding retain_leases
  retain_leases_lem now [] pending = refl
  retain_leases_lem now ((id, l) ∷ m) pending = elim (Bool-cases (is_overdue now l)) [
    | inl late ↦
        rw (is_late-overdue now l, late)
          (ground (
            arith,
            retain_leases_lem now m (l.job ∷ pending),
            reverse-cons l.job (map lease_job (late_leases now m)),
            append_assoc (reverse (map lease_job (late_leases now m))) (l.job ∷ []) pending,
          ))
    | inr live ↦ rw (is_late-overdue now l, live) (ground (arith, retain_leases_lem now m pending))
  ]

module _ {EndpointId Sender : Type 0} where
  -- `check_timeouts` returns the ids of the leases whose last heartbeat is more than 60 seconds before
  -- `now`, drops just those leases, and puts their jobs in front of the queue, the last one first.
  pub check_timeouts_lem :
      (now : ℕ) (q : BuildQueue EndpointId Sender)
      → check_timeouts now q ≡ (
        record q {
          leased = kept_leases now q.leased;
          pending = reverse (map lease_job (late_leases now q.leased)) ++ q.pending;
        },
        map lease_id (late_leases now q.leased),
      )
  unfolding check_timeouts
  check_timeouts_lem now q = ground (arith, retain_leases_lem now q.leased q.pending)
