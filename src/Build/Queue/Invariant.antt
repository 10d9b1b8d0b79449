-- ===== src/Build/Queue/Invariant.antt =====
-- Which job ids the calls on the build queue of iroh-nix/src/build.rs keep in use, and the invariant.
use iroh_nix.Support.{
  ℕ, ◌+◌, ◌^◌, ◌≤◌, ◌<◌, ◌≡◌, refl, sym, ap, inl, inr, Option, some, List, [], ◌∷◌, arith,
  Option-cases, Bytes, Eq, eq_nat, eq_bytes, length,
}
use mathlib.Core.Path.{subst}
use iroh_nix.Support.Maps.{Map, lookup, insert, erase}
use iroh_nix.Build.Types.{JobId, DrvHash, BuildJob, LeasedJob, BuildQueue}
use iroh_nix.Build.Queue.{
  new, push, lease, heartbeat, complete, fail, clear_needed_features, take_pending_fetches,
}
use iroh_nix.Build.Queue.Order.{leased_to, pull-PullsFirst}
use iroh_nix.Build.Queue.Timeouts.{check_timeouts_lem}
use iroh_nix.Build.Queue.InFlight.{
  IsNamed, IsNamed-kept, IsNamed-insert, IsNamed-erase, IsNamed-lookup, in_flight, count_jobs,
  count_leases,
}
use iroh_nix.Build.Queue.Calls.{
  Call, pushes, pulls, heartbeats, completes, fails, checks_timeouts, clears_needed_features,
  takes_pending_fetches, assigned, assigned-le, apply, run, opened, closed,
}
use iroh_nix.Build.Queue.Flow.{
  push_flow, pull_flow, check_flow, heartbeat_flow, complete_flow, fail_flow,
}

module _ {EndpointId : Type 0} where
  IsNamed-put_back :
      (j : JobId) (l : LeasedJob EndpointId) (m : Map JobId (LeasedJob EndpointId))
      → lookup j m ≡ some l
      → IsNamed m
      → IsNamed (insert j l (erase j m))
  IsNamed-put_back j l m e n =
      IsNamed-insert j l (erase j m) (IsNamed-lookup j m n e) (IsNamed-erase j m n)

module _ {EndpointId Sender : Type 0} where
  pub record IsValid (q : BuildQueue EndpointId Sender) : Type 0 where
    pub unique : (id : JobId) → in_flight id q ≤ 1
    pub issued : (id : JobId) → q.next_job_id ≤ id → in_flight id q ≡ 0
    pub named : IsNamed q.leased

module _ {EndpointId Sender : Type 0} where
  -- A new queue is valid.
  pub new-IsValid : (our_id : EndpointId) → IsValid {Sender = Sender} (new our_id)
  unfolding new in_flight count_jobs count_leases
  new-IsValid our_id = record {
    unique = λ id. omega arith;
    issued = λ id h. omega arith;
    named = tt;
  }

module _ {EndpointId Sender : Type 0} ⦃e : Eq EndpointId⦄ (blake3_hash : Bytes → DrvHash) where
  -- From a valid queue, a call leaves the times that an id is pending or leased as they were, but
  -- for the id that a push assigns, which comes in once, and the id that its lease's holder
  -- completes or fails, which goes out.
  pub apply-in_flight :
      (c : Call EndpointId) (q : BuildQueue EndpointId Sender) (id : JobId)
      → IsValid q
      → in_flight id (apply blake3_hash c q) + closed c q id ≡ in_flight id q + opened c q id
  unfolding apply opened closed
  apply-in_flight (pushes t drv features outputs inputs) q id v =
      omega (arith, push_flow q blake3_hash t drv features outputs inputs id)
  apply-in_flight (pulls now builder features) q id v =
      omega (arith, pull_flow q now builder features id v.unique)
  apply-in_flight (heartbeats now j builder status) q id v =
      omega (arith, heartbeat_flow q now j builder status id)
  apply-in_flight (completes j builder result) q id v =
      omega (arith, complete_flow q j builder result id (v.unique j))
  apply-in_flight (fails j builder error) q id v =
      omega (arith, fail_flow q j builder error id (v.unique j))
  apply-in_flight (checks_timeouts now) q id v = omega (arith, check_flow q now id v.named)
  apply-in_flight clears_needed_features q id v = unfold in_flight clear_needed_features in refl
  apply-in_flight takes_pending_fetches q id v = unfold in_flight take_pending_fetches in refl

  abbrev next_after : BuildQueue EndpointId Sender × Option BuildJob → ℕ
  next_after r = r.0.next_job_id

  abbrev next_job_id_of : BuildQueue EndpointId Sender × List JobId → ℕ
  next_job_id_of r = r.0.next_job_id

  pub next_job_id-apply :
      (c : Call EndpointId) (q : BuildQueue EndpointId Sender)
      → q.next_job_id + 1 < 2 ^ 64
      → (apply blake3_hash c q).next_job_id ≡ q.next_job_id + assigned c
  unfolding apply push
  next_job_id-apply (pushes t drv features outputs inputs) q h = omega arith
  next_job_id-apply (pulls now builder features) q h =
      elim (pull-PullsFirst now q builder features) [
        | inl (nowhere, r) ↦ omega (arith, ap next_after r)
        | inr (pre, job, post, split, before, hit, r) ↦ omega (arith, ap next_after r)
      ]
  next_job_id-apply (heartbeats now j builder status) q h = unfold heartbeat in ground arith
  next_job_id-apply (completes j builder result) q h = unfold complete in ground arith
  next_job_id-apply (fails j builder error) q h = unfold fail in ground arith
  next_job_id-apply (checks_timeouts now) q h =
      omega (arith, ap next_job_id_of (check_timeouts_lem now q))
  next_job_id-apply clears_needed_features q h = unfold clear_needed_features in omega arith
  next_job_id-apply takes_pending_fetches q h = unfold take_pending_fetches in omega arith

  opened-le :
      (c : Call EndpointId) (q : BuildQueue EndpointId Sender) (id : JobId)
      → IsValid q
      → in_flight id q + opened c q id ≤ 1
  unfolding opened
  opened-le (pushes t drv features outputs inputs) q id v = ground (arith, v.unique id, v.issued id)
  opened-le _ q id v = omega (arith, v.unique id)

  opened-issued :
      (c : Call EndpointId) (q : BuildQueue EndpointId Sender) (id : JobId)
      → IsValid q
      → q.next_job_id + assigned c ≤ id
      → in_flight id q + opened c q id ≡ 0
  unfolding opened
  opened-issued (pushes t drv features outputs inputs) q id v h =
      ground (arith, v.issued id (omega arith))
  opened-issued _ q id v h = omega (arith, v.issued id (omega arith))

  abbrev NamedAfter : BuildQueue EndpointId Sender × Option BuildJob → Type 0
  NamedAfter r = IsNamed r.0.leased

  IsNamed-apply :
      (c : Call EndpointId) (q : BuildQueue EndpointId Sender)
      → IsNamed q.leased
      → IsNamed (apply blake3_hash c q).leased
  unfolding apply
  IsNamed-apply (pushes t drv features outputs inputs) q n = unfold push in n
  IsNamed-apply (pulls now builder features) q n = elim (pull-PullsFirst now q builder features) [
    | inl (nowhere, r) ↦ subst NamedAfter (sym r) n
    | inr (pre, job, post, split, before, hit, r) ↦
        subst NamedAfter (sym r)
          (IsNamed-insert job.id (leased_to now builder job) q.leased (unfold lease in refl) n)
  ]
  IsNamed-apply (heartbeats now j builder status) q n = elim (Option-cases (lookup j q.leased)) [
    | inl e ↦ unfold heartbeat in ground (arith, e)
    | inr (l, e) ↦
        let beat = record l { last_heartbeat = now; status = status } in
        unfold heartbeat in
        ground (arith, e, IsNamed-insert j beat q.leased (IsNamed-lookup j q.leased n e) n)
  ]
  IsNamed-apply (completes j builder result) q n = elim (Option-cases (lookup j q.leased)) [
    | inl e ↦ unfold complete in ground (arith, e)
    | inr (l, e) ↦
        unfold complete in
        ground (arith, e, IsNamed-erase j q.leased n, IsNamed-put_back j l q.leased e n)
  ]
  IsNamed-apply (fails j builder error) q n = elim (Option-cases (lookup j q.leased)) [
    | inl e ↦ unfold fail in ground (arith, e)
    | inr (l, e) ↦
        unfold fail in
        ground (arith, e, IsNamed-erase j q.leased n, IsNamed-put_back j l q.leased e n)
  ]
  IsNamed-apply (checks_timeouts now) q n =
      subst (λ r. IsNamed r.0.leased) (sym (check_timeouts_lem now q)) (IsNamed-kept now q.leased n)
  IsNamed-apply clears_needed_features q n = unfold clear_needed_features in n
  IsNamed-apply takes_pending_fetches q n = unfold take_pending_fetches in n

  pub apply-IsValid :
      (c : Call EndpointId) (q : BuildQueue EndpointId Sender)
      → q.next_job_id + 1 < 2 ^ 64
      → IsValid q
      → IsValid (apply blake3_hash c q)
  apply-IsValid c q h v = record {
    unique = λ id. omega (arith, apply-in_flight c q id v, opened-le c q id v);
    issued = λ id le. omega (
      arith,
      apply-in_flight c q id v,
      opened-issued c q id v (omega (arith, next_job_id-apply c q h)),
    );
    named = IsNamed-apply c q v.named;
  }

  -- After any sequence of calls on a valid queue, too short to exhaust the 64-bit ids, no id is
  -- pending or leased more than once, no id that is still to be assigned is in use, and each
  -- lease stands under its job's id.
  pub run-IsValid :
      (cs : List (Call EndpointId)) (q : BuildQueue EndpointId Sender)
      → q.next_job_id + length cs < 2 ^ 64
      → IsValid q
      → IsValid (run blake3_hash cs q)
  unfolding run
  run-IsValid [] q h v = v
  run-IsValid (c ∷ cs) q h v =
      run-IsValid cs (apply blake3_hash c q)
        (omega (arith, next_job_id-apply c q (omega arith), assigned-le c))
        (apply-IsValid c q (omega arith) v)
