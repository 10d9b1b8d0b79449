-- ===== src/Retry/Attempts.antt =====
-- How often the loops of iroh-nix/src/retry.rs try, and whose outcome they give.
use iroh_nix.Support.{
  ℕ, zero, suc, ◌+◌, ◌%◌, ◌^◌, ◌≤◌, ◌<◌, ◌≡◌, refl, sym, ap, ◌∙◌, ◌⊎◌, inl, inr, Bool, true, false,
  Option, none, some, arith, Bool-cases, eq_nat, eq_bytes,
}
use mathlib.Core.Path.{subst}
use native.Mathlib.Decide.{ℕ_discrete}
use iroh_nix.Error.{Error, Result, ok, err, Result-cases}
use iroh_nix.Retry.{
  Floats, RetryStats, RetryConfig, is_retryable, delay_for_attempt, unwrap_or, retry_loop,
  with_retry_stats,
}

-- The outcome is an error that is tried again.
unfoldable pub retries {ℓ} : {T : Type ℓ} → Result T → Bool
unfolding is_retryable
retries (err e) = is_retryable e
retries _ = false

unfoldable pub is_ok {ℓ} : {T : Type ℓ} → Result T → Bool
is_ok (ok t) = true
is_ok _ = false

module _ {Float T : Type 0} (floats : Floats Float) (config : RetryConfig Float)
    (operation : ℕ → Result T) where
  -- From an attempt on, each attempt before `k` fails with an error that is tried again; the outcome
  -- is that of attempt `k`, which is the last one allowed or one that is not tried again.
  abbrev pub StopsAt : ℕ → Result T × RetryStats → ℕ → Type 0
  StopsAt attempt r k =
      (attempt ≤ k)
      × (k ≤ config.max_retries)
      × ((i : ℕ) → attempt ≤ i → i < k → retries (operation i) ≡ true)
      × ((retries (operation k) ≡ false) ⊎ (k ≡ config.max_retries))
      × (r.0 ≡ operation k)
      × (r.1.attempts ≡ k + 1)
      × (r.1.succeeded ≡ is_ok (operation k))

  stops_here :
      (attempt : ℕ) (r : Result T × RetryStats)
      → attempt ≤ config.max_retries
      → (retries (operation attempt) ≡ false) ⊎ (attempt ≡ config.max_retries)
      → r.0 ≡ operation attempt
      → r.1.attempts ≡ attempt + 1
      → r.1.succeeded ≡ is_ok (operation attempt)
      → StopsAt attempt r attempt
  stops_here attempt r h why same count flag =
      (omega arith, h, (λ i le lt. ground arith), why, same, count, flag)

  -- A turn that does not go on.
  turn_ends :
      (left attempt : ℕ) (last : Option Error) (stats : RetryStats)
      → attempt ≤ config.max_retries
      → config.max_retries + 1 < 2 ^ 32
      → stats.succeeded ≡ false
      → ((retries (operation attempt) ≡ false) × (attempt < config.max_retries))
        ⊎ ((left ≡ 0) × (attempt ≡ config.max_retries))
      → StopsAt attempt (retry_loop floats config operation (suc left) attempt last stats) attempt
  turn_ends left attempt last stats h small s stop = elim (Result-cases (operation attempt)) [
    | inl (t, e) ↦
        stops_here attempt (retry_loop floats config operation (suc left) attempt last stats) h
          (inl (unfold retries in rw e refl)) (unfold retry_loop in ground (arith, e))
          (unfold retry_loop in ground (arith, e)) (unfold retry_loop is_ok in ground (arith, e))
    | inr (inl (failure, e)) ↦
        stops_here attempt (retry_loop floats config operation (suc left) attempt last stats) h
          (elim stop [ inl p ↦ inl p.0 | inr p ↦ inr p.1 ])
          (unfold retry_loop unwrap_or retries in ground (arith, e, stop))
          (unfold retry_loop retries in ground (arith, e, stop))
          (unfold retry_loop is_ok retries in ground (arith, e, stop))
    | inr (inr e) ↦
        stops_here attempt (retry_loop floats config operation (suc left) attempt last stats) h
          (inl (unfold retries in rw e refl)) (unfold retry_loop in ground (arith, e))
          (unfold retry_loop in ground (arith, e)) (unfold retry_loop is_ok in ground (arith, e))
  ]

  -- A turn that goes on.
  turn_goes_on :
      (left attempt : ℕ) (last : Option Error) (stats : RetryStats)
      → attempt < config.max_retries
      → retries (operation attempt) ≡ true
      → (last' : Option Error) × (waited : RetryStats) × (waited.succeeded ≡ stats.succeeded)
        × (retry_loop floats config operation (suc left) attempt last stats
            ≡ retry_loop floats config operation left (attempt + 1) last' waited)
  unfolding retry_loop retries
  turn_goes_on left attempt last stats more again = elim (Result-cases (operation attempt)) [
    | inl (t, e) ↦ ground (arith, e)
    | inr (inl (failure, e)) ↦ (
      some failure,
      record stats {
        attempts = (attempt + 1) % 2 ^ 32;
        total_delay = stats.total_delay + delay_for_attempt floats config attempt;
      },
      refl,
      ground (arith, e, again, more),
    )
    | inr (inr e) ↦ ground (arith, e)
  ]

  earlier :
      (attempt k : ℕ) (r : Result T × RetryStats)
      → retries (operation attempt) ≡ true
      → StopsAt (attempt + 1) r k
      → StopsAt attempt r k
  earlier attempt k r again (le, most, before, why, same, count, flag) = (
    omega (arith, le),
    most,
    λ i from below. elim (ℕ_discrete attempt i) [
      | yes here ↦ ap (λ n. retries (operation n)) (sym here) ∙ again
      | no other ↦ before i (omega (arith, other)) below
    ],
    why,
    same,
    count,
    flag,
  )

  retry_loop-StopsAt :
      (left attempt : ℕ) (last : Option Error) (stats : RetryStats)
      → attempt + left ≡ config.max_retries
      → config.max_retries + 1 < 2 ^ 32
      → stats.succeeded ≡ false
      → (k : ℕ) × StopsAt attempt
          (retry_loop floats config operation (suc left) attempt last stats)
          k
  unfolding retry_loop
  retry_loop-StopsAt zero attempt last stats h small s =
      (attempt, turn_ends zero attempt last stats (omega arith) small s (inr (refl, omega arith)))
  retry_loop-StopsAt (suc left) attempt last stats h small s =
      elim (Bool-cases (retries (operation attempt))) [
        | inl again ↦
            let (last', waited, kept, step) =
              turn_goes_on (suc left) attempt last stats (omega arith) again in
            let (k, stops) =
              retry_loop-StopsAt left (attempt + 1) last' waited (omega arith) small (kept ∙ s) in
            (
              k,
              earlier attempt k
                  (retry_loop floats config operation (suc (suc left)) attempt last stats) again
                  (subst (λ r. StopsAt (attempt + 1) r k) (sym step) stops),
            )
        | inr stop ↦ (
          attempt,
          turn_ends (suc left) attempt last stats (omega arith) small s (inl (stop, omega arith)),
        )
      ]

  -- For fewer than 2^32 attempts: the outcome of `with_retry_stats` is that of one attempt, which is
  -- the last one allowed or one whose outcome is not tried again, each attempt before it fails with an
  -- error that is tried again, the statistics count the attempts up to it, and they tell whether it
  -- succeeded.
  pub with_retry_stats-StopsAt :
      config.max_retries + 1 < 2 ^ 32
      → (k : ℕ) × StopsAt 0 (with_retry_stats floats config operation) k
  unfolding with_retry_stats
  with_retry_stats-StopsAt small =
      retry_loop-StopsAt config.max_retries 0 none
        (record { attempts = 0; total_delay = 0; succeeded = false }) (omega arith) small refl
