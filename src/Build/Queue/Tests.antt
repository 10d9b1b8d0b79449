-- ===== src/Build/Queue/Tests.antt =====
-- Runs of the build queue of iroh-nix/src/build.rs.
use iroh_nix.Support.{
  ◌+◌, ◌*◌, ◌^◌, ◌≡◌, refl, [], ◌∷◌, ◌++◌, map, reverse, arith, codes, bytes_eq, eq_nat, eq_bytes,
  is_empty,
}
use iroh_nix.Support.Maps.{insert}
use iroh_nix.Build.Types.{BuildJob}
use iroh_nix.Build.Queue.{
  new, lease, position, remove_at, matches, is_none, is_late, take_job, retain_leases, push, pull,
  heartbeat, complete, fail, check_timeouts,
}
use iroh_nix.Build.Queue.Order.{PullsFirst, pull-PullsFirst}
use iroh_nix.Build.Queue.Timeouts.{
  kept_leases, late_leases, lease_job, lease_id, check_timeouts_lem,
}
use iroh_nix.Build.Queue.InFlight.{in_flight}
use iroh_nix.Build.Queue.Calls.{completes, apply, run, opened, closed}
use iroh_nix.Build.Queue.Ownership.{Refused, stranger-Refused}
use iroh_nix.Build.Queue.Invariant.{IsValid, new-IsValid, apply-in_flight, run-IsValid}
use iroh_nix.Build.Queue.Example.{
  hash, empty_queue, queue_calls, leased_queue, no_result, leased_queue-IsValid, not_held,
}

run-IsValid_example : IsValid leased_queue
unfolding new
run-IsValid_example = run-IsValid hash queue_calls empty_queue (omega arith) (new-IsValid 7)

apply-in_flight_example :
    in_flight 2 (apply hash (completes 2 1 no_result) leased_queue)
      + closed (completes 2 1 no_result) leased_queue 2
    ≡ in_flight 2 leased_queue + opened (completes 2 1 no_result) leased_queue 2
apply-in_flight_example =
    apply-in_flight hash (completes 2 1 no_result) leased_queue 2 leased_queue-IsValid

pull-PullsFirst_example :
    PullsFirst 20 leased_queue 3 (codes "arm" ∷ []) (pull 20 leased_queue 3 (codes "arm" ∷ []))
pull-PullsFirst_example = pull-PullsFirst 20 leased_queue 3 (codes "arm" ∷ [])

check_timeouts_lem_example : check_timeouts (61 * 10 ^ 9) leased_queue ≡ (
  record leased_queue {
    leased = kept_leases (61 * 10 ^ 9) leased_queue.leased;
    pending =
        reverse (map lease_job (late_leases (61 * 10 ^ 9) leased_queue.leased))
        ++ leased_queue.pending;
  },
  map lease_id (late_leases (61 * 10 ^ 9) leased_queue.leased),
)
check_timeouts_lem_example = check_timeouts_lem (61 * 10 ^ 9) leased_queue

-- The lease of job 2 has timed out, and the job is first in the queue.
timed_out :
    (map (λ (j : BuildJob). j.id) (check_timeouts (61 * 10 ^ 9) leased_queue).0.pending
      ≡ 2 ∷ 1 ∷ [])
    × ((check_timeouts (61 * 10 ^ 9) leased_queue).1 ≡ 2 ∷ [])
unfolding new run apply push pull check_timeouts lease position remove_at matches is_empty is_none
    is_late take_job insert retain_leases bytes_eq
timed_out = (refl, refl)

stranger-Refused_example :
    Refused leased_queue (heartbeat 20 leased_queue 2 5 [])
    × Refused leased_queue (complete leased_queue 2 5 no_result)
    × Refused leased_queue (fail leased_queue 2 5 [])
stranger-Refused_example = stranger-Refused leased_queue 20 2 5 [] [] no_result not_held
