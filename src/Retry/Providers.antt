-- ===== src/Retry/Providers.antt =====
-- Which provider answers in `with_retry_providers` of iroh-nix/src/retry.rs.
use iroh_nix.Support.{
  ℕ, suc, min, ◌≡◌, refl, ap, ◌⊎◌, inl, inr, Bool, true, false, Option, none, some, List, [], ◌∷◌,
  ◌++◌, arith, ltb, leb, if◌then◌else◌, eq_nat, eq_bytes, length, all,
}
use mathlib.Core.Path.{subst}
use iroh_nix.Error.{Error, Result, err, Result-cases}
use iroh_nix.Retry.{
  Floats, RetryConfig, with_retry, provider_config, providers_loop, with_retry_providers, unwrap_or,
}

unfoldable pub is_err {ℓ} : {T : Type ℓ} → Result T → Bool
is_err (err e) = true
is_err _ = false

module _ {Float P T : Type 0} (floats : Floats Float) (operation : P → ℕ → Result T) where
  -- The answer is that of one provider: those before it all failed, and it did not or it is the last.
  abbrev pub FirstAnswer : RetryConfig Float → List P → Result T → Type 0
  FirstAnswer config providers r =
      (pre : List P) × (p : P) × (post : List P) × (providers ≡ pre ++ p ∷ post)
      × (all (λ x. is_err (with_retry floats config (operation x))) pre ≡ true)
      × ((is_err (with_retry floats config (operation p)) ≡ false) ⊎ (post ≡ []))
      × (r ≡ with_retry floats config (operation p))

  providers_loop-FirstAnswer :
      (config : RetryConfig Float) (p : P) (ps : List P) (last : Option Error)
      → FirstAnswer config (p ∷ ps) (providers_loop floats config operation (p ∷ ps) last)
  unfolding providers_loop is_err
  providers_loop-FirstAnswer config p [] last =
      elim (Result-cases (with_retry floats config (operation p))) [
        | inl (t, e) ↦ ([], p, [], refl, refl, inr refl, ground (arith, e))
        | inr (inl (failure, e)) ↦
            ([], p, [], refl, refl, inr refl, unfold unwrap_or in ground (arith, e))
        | inr (inr e) ↦ ([], p, [], refl, refl, inr refl, ground (arith, e))
      ]
  providers_loop-FirstAnswer config p (q ∷ ps) last =
      elim (Result-cases (with_retry floats config (operation p))) [
        | inl (t, e) ↦ ([], p, q ∷ ps, refl, refl, inl (ground (arith, e)), ground (arith, e))
        | inr (inl (failure, e)) ↦
            let (pre, x, post, split, before, why, same) =
              providers_loop-FirstAnswer config q ps (some failure) in
            (
              p ∷ pre,
              x,
              post,
              ap (◌∷◌ p) split,
              ground (arith, e, before),
              why,
              ground (arith, e, same),
            )
        | inr (inr e) ↦ ([], p, q ∷ ps, refl, refl, inl (ground (arith, e)), ground (arith, e))
      ]

  -- The configuration of each provider's attempts, by the providers behind the first.
  abbrev pub attempts_of : RetryConfig Float → List P → RetryConfig Float
  attempts_of config [] = config
  attempts_of config (q ∷ qs) = record config {
    max_retries = if leb config.max_retries 2 then config.max_retries else 2;
  }

  provider_config-attempts_of :
      (config : RetryConfig Float) (p : P) (ps : List P)
      → provider_config floats config (p ∷ ps) ≡ attempts_of config ps
  unfolding provider_config
  provider_config-attempts_of config p [] = refl
  provider_config-attempts_of config p (q ∷ qs) =
      let several : ltb 1 (suc (suc (length qs))) ≡ true = ground arith in
      let least : min config.max_retries 2
          ≡ (if leb config.max_retries 2 then config.max_retries else 2) =
        ground arith in
      rw (several, least) refl

  -- With one provider or more, the answer is that of the first that does not fail after its retries,
  -- and if all fail the error of the last. With several providers each has two retries
  -- at most, and fewer where the configuration says so; a single one has those of the configuration.
  pub with_retry_providers-FirstAnswer :
      (config : RetryConfig Float) (p : P) (ps : List P)
      → FirstAnswer
          (attempts_of config ps)
          (p ∷ ps)
          (with_retry_providers floats config (p ∷ ps) operation)
  unfolding with_retry_providers
  with_retry_providers-FirstAnswer config p ps =
      subst (λ c. FirstAnswer c (p ∷ ps) (with_retry_providers floats config (p ∷ ps) operation))
        (provider_config-attempts_of config p ps)
        (providers_loop-FirstAnswer (provider_config floats config (p ∷ ps)) p ps none)
