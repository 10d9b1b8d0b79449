-- ===== src/Build/Queue/Example.antt =====
-- A queue of iroh-nix/src/build.rs with a pending and a leased job, for the examples.
use iroh_nix.Support.{
  ℕ, ◌≡◌, refl, true, false, List, [], ◌∷◌, arith, Bytes, codes, bytes_eq, eq_nat, eq_bytes,
  is_empty,
}
use iroh_nix.Support.Maps.{lookup, insert}
use iroh_nix.Build.Types.{BuildResult, BuildQueue}
use iroh_nix.Build.Queue.{new, lease, position, remove_at, matches, is_none, take_job, push, pull}
use iroh_nix.Build.Queue.Calls.{Call, pushes, pulls, apply, run, holds}
use iroh_nix.Build.Queue.Invariant.{IsValid, new-IsValid, run-IsValid}

abbrev pub hash : Bytes → Bytes
hash b = b

abbrev pub empty_queue : BuildQueue ℕ ℕ
unfolding new
empty_queue = new 7

abbrev pub queue_calls : List (Call ℕ)
queue_calls =
    pushes 10 (codes "a.drv") (codes "arm" ∷ []) [] []
    ∷ pushes 11 (codes "b.drv") (codes "x86" ∷ []) [] []
    ∷ pulls 12 1 (codes "x86" ∷ [])
    ∷ []

-- Job 1 is pending, job 2 is leased to builder 1.
abbrev pub leased_queue : BuildQueue ℕ ℕ
leased_queue = run hash queue_calls empty_queue

abbrev pub no_result : BuildResult
no_result = record {
  job_id = 2;
  drv_hash = codes "b.drv";
  builder = [];
  outputs = [];
  signature_r = [];
  signature_s = [];
}

pub leased_queue-IsValid : IsValid leased_queue
unfolding new
leased_queue-IsValid = run-IsValid hash queue_calls empty_queue (omega arith) (new-IsValid 7)

pub not_held : holds leased_queue 2 5 ≡ false
unfolding new run apply push pull lease position remove_at matches is_empty is_none take_job insert
    lookup holds bytes_eq
not_held = refl

pub held : holds leased_queue 2 1 ≡ true
unfolding new run apply push pull lease position remove_at matches is_empty is_none take_job insert
    lookup holds bytes_eq
held = refl

pub three_ids : leased_queue.next_job_id ≡ 3
unfolding new run apply push pull lease position remove_at matches is_empty is_none take_job
    bytes_eq
three_ids = refl
