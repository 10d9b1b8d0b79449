-- ===== src/Build/Queue/Fetches.antt =====
-- The results that the build queue of iroh-nix/src/build.rs holds for a fetch of their outputs.
use iroh_nix.Support.{
  ℕ, ◌≡◌, refl, sym, ap, ◌∙◌, inl, inr, Bool, true, false, List, [], ◌∷◌, ◌++◌, append-nil,
  append_assoc, arith, if◌then◌else◌, Bool-cases, Option-cases, Bytes, Eq, ◌==◌, eq_nat, eq_bytes,
  all,
}
use iroh_nix.Support.Maps.{lookup}
use iroh_nix.Build.Types.{JobId, DrvHash, BuildResult, BuildQueue}
use iroh_nix.Build.Queue.{
  push, pull, heartbeat, complete, fail, check_timeouts, clear_needed_features,
}
use iroh_nix.Build.Queue.Order.{pull-PullsFirst}
use iroh_nix.Build.Queue.Calls.{
  Call, pushes, pulls, heartbeats, completes, fails, checks_timeouts, clears_needed_features,
  takes_pending_fetches, apply, run, holds,
}

module _ {EndpointId : Type 0} where
  -- The call does not take the results.
  abbrev pub leaves_fetches : Call EndpointId → Bool
  leaves_fetches takes_pending_fetches = false
  leaves_fetches _ = true

module _ {EndpointId Sender : Type 0} ⦃e : Eq EndpointId⦄ where
  -- The result that the holder of a lease completes a job with.
  unfoldable pub accepted : Call EndpointId → BuildQueue EndpointId Sender → List BuildResult
  accepted (completes id builder result) q = if holds q id builder then result ∷ [] else []
  accepted _ q = []

module _ {EndpointId Sender : Type 0} ⦃e : Eq EndpointId⦄ (blake3_hash : Bytes → DrvHash) where
  unfoldable pub accepted_all :
      List (Call EndpointId) → BuildQueue EndpointId Sender → List BuildResult
  accepted_all [] q = []
  accepted_all (c ∷ cs) q = accepted c q ++ accepted_all cs (apply blake3_hash c q)

  complete_fetch :
      (id : JobId) (builder : EndpointId) (result : BuildResult) (q : BuildQueue EndpointId Sender)
      → (complete q id builder result).0.pending_fetch
        ≡ q.pending_fetch ++ accepted (completes id builder result) q
  unfolding complete accepted holds
  complete_fetch id builder result q = elim (Option-cases (lookup id q.leased)) [
    | inl none_there ↦ ground (arith, none_there, append-nil q.pending_fetch)
    | inr (l, there) ↦
        ground (arith, there, Bool-cases (l.builder == builder), append-nil q.pending_fetch)
  ]

  fail_fetch :
      (id : JobId) (builder : EndpointId) (error : Bytes) (q : BuildQueue EndpointId Sender)
      → (fail q id builder error).0.pending_fetch ≡ q.pending_fetch
  unfolding fail
  fail_fetch id builder error q = elim (Option-cases (lookup id q.leased)) [
    | inl none_there ↦ ground (arith, none_there)
    | inr (l, there) ↦ ground (arith, there, Bool-cases (l.builder == builder))
  ]

  heartbeat_fetch :
      (now : ℕ) (id : JobId) (builder : EndpointId) (status : Bytes)
      (q : BuildQueue EndpointId Sender)
      → (heartbeat now q id builder status).0.pending_fetch ≡ q.pending_fetch
  unfolding heartbeat
  heartbeat_fetch now id builder status q = elim (Option-cases (lookup id q.leased)) [
    | inl none_there ↦ ground (arith, none_there)
    | inr (l, there) ↦ ground (arith, there, Bool-cases (l.builder == builder))
  ]

  pull_fetch :
      (now : ℕ) (builder : EndpointId) (features : List Bytes) (q : BuildQueue EndpointId Sender)
      → (pull now q builder features).0.pending_fetch ≡ q.pending_fetch
  pull_fetch now builder features q = elim (pull-PullsFirst now q builder features) [
    | inl (nowhere, r) ↦ rw r refl
    | inr (pre, job, post, split, before, hit, r) ↦ rw r refl
  ]

  apply_fetch :
      (c : Call EndpointId) (q : BuildQueue EndpointId Sender)
      → leaves_fetches c ≡ true
      → (apply blake3_hash c q).pending_fetch ≡ q.pending_fetch ++ accepted c q
  unfolding apply accepted push check_timeouts clear_needed_features
  apply_fetch (pushes t drv features outputs inputs) q h = sym (append-nil q.pending_fetch)
  apply_fetch (pulls now builder features) q h =
      pull_fetch now builder features q ∙ sym (append-nil q.pending_fetch)
  apply_fetch (heartbeats now id builder status) q h =
      heartbeat_fetch now id builder status q ∙ sym (append-nil q.pending_fetch)
  apply_fetch (completes id builder result) q h = complete_fetch id builder result q
  apply_fetch (fails id builder error) q h =
      fail_fetch id builder error q ∙ sym (append-nil q.pending_fetch)
  apply_fetch (checks_timeouts now) q h = sym (append-nil q.pending_fetch)
  apply_fetch clears_needed_features q h = sym (append-nil q.pending_fetch)
  apply_fetch takes_pending_fetches q h = cc

  -- The results to fetch are those that were there and those of the completions that were accepted.
  pub run_fetch :
      (cs : List (Call EndpointId)) (q : BuildQueue EndpointId Sender)
      → all leaves_fetches cs ≡ true
      → (run blake3_hash cs q).pending_fetch ≡ q.pending_fetch ++ accepted_all cs q
  unfolding run accepted_all
  run_fetch [] q h = sym (append-nil q.pending_fetch)
  run_fetch (c ∷ cs) q h =
      run_fetch cs (apply blake3_hash c q) (ground (arith, h))
      ∙ ap (λ fetches. fetches ++ accepted_all cs (apply blake3_hash c q))
          (apply_fetch c q (ground (arith, h)))
      ∙ append_assoc q.pending_fetch (accepted c q) (accepted_all cs (apply blake3_hash c q))
