-- ===== src/Retry.antt =====
-- iroh-nix/src/retry.rs: which errors are tried again, and the loops over attempts and providers.
-- What an operation gives at an attempt is an argument, counted from 0. The arithmetic of f64 and the
-- random numbers are foreign: `Floats` has them as parameters. A
-- delay is a number of nanoseconds; the sum of the delays is taken to fit a `Duration`.
pub mod Attempts
pub mod Providers
mod Tests
use iroh_nix.Support.{
  ℕ, zero, suc, ◌+◌, ◌-◌, ◌*◌, ◌/◌, ◌%◌, ◌^◌, ◌≤◌, ◌<◌, min, ◌≡◌, refl, sym, ap, ◌∙◌, ◌≢◌, ◌↔◌, ◌⊎◌,
  inl, inr, Bool, true, false, not, ◌&&◌, ◌||◌, Option, none, some, List, [], ◌∷◌, ◌++◌, map,
  reverse, append-nil, append_assoc, arith, ltb, leb, nat_eq, if◌then◌else◌, ltb→lt, lt→ltb, leb→le,
  nat_eq_iff, Bool-cases, Option-cases, Bytes, codes, bytes_eq, bytes_eq_iff, Eq, ◌==◌, eq_nat,
  eq_bytes, ==-refl, contains, length, take, drop, replicate, All, all, length-append,
  take-append-drop, length-take, length-drop, length-replicate, All-append, All-parts, take-append,
  drop-append, keep_if, is_empty,
}
use iroh_nix.Error.{
  ErrorKind, connection_reset, connection_aborted, timed_out, interrupted, would_block, Error, io,
  iroh, protocol, gossip, connection, timeout, remote, http_cache, Result, ok, err, panic,
}

pub record RetryStats : Type 0 where
  pub attempts : ℕ
  pub total_delay : ℕ
  pub succeeded : Bool

pub record RetryConfig (Float : Type 0) : Type 0 where
  pub max_retries : ℕ
  pub initial_delay : ℕ
  pub max_delay : ℕ
  pub backoff_multiplier : Float
  pub jitter : Float

-- The arithmetic of f64, the conversions of a `Duration`, and the random number that is drawn
-- before an attempt. `powi` has the power as it is before the cast to i32.
pub record Floats (Float : Type 0) : Type 0 where
  pub zero_point : Float
  pub one_half : Float
  pub two : Float
  pub as_secs_f64 : ℕ → Float
  pub from_secs_f64 : Float → ℕ
  pub times : Float → Float → Float
  pub plus : Float → Float → Float
  pub minus : Float → Float → Float
  pub smaller : Float → Float → Float
  pub larger : Float → Float → Float
  pub powi : Float → ℕ → Float
  pub exceeds : Float → Float → Bool
  pub random : ℕ → Float

-- `haystack.starts_with(needle)`
unfoldable pub starts_with : Bytes → Bytes → Bool
starts_with haystack [] = true
starts_with [] (b ∷ needle) = false
starts_with (a ∷ haystack) (b ∷ needle) = (a == b) && starts_with haystack needle

-- `haystack.contains(needle)`
unfoldable pub has_text : Bytes → Bytes → Bool
unfolding starts_with
has_text [] needle = starts_with [] needle
has_text (a ∷ haystack) needle = starts_with (a ∷ haystack) needle || has_text haystack needle

unfoldable pub is_retryable_kind : ErrorKind → Bool
is_retryable_kind connection_reset = true
is_retryable_kind connection_aborted = true
is_retryable_kind timed_out = true
is_retryable_kind interrupted = true
is_retryable_kind would_block = true
is_retryable_kind _ = false

-- An error that another library made keeps no text of it here, only the words that iroh-nix puts
-- before it, so that a word found in that text alone is not seen.
unfoldable pub is_retryable : Error → Bool
unfolding has_text is_retryable_kind
is_retryable (connection m) = true
is_retryable (timeout m) = true
is_retryable (protocol m) =
    has_text m (codes "stream")
    || (has_text m (codes "connection")
        || (has_text m (codes "timeout") || has_text m (codes "reset")))
is_retryable (remote m) = not (has_text m (codes "not found"))
is_retryable (io kind) = is_retryable_kind kind
is_retryable iroh = true
is_retryable (gossip m) = true
is_retryable (http_cache m) =
    not (has_text m (codes "not found")) && not (has_text m (codes "mismatch"))
is_retryable _ = false

unfoldable pub unwrap_or : Option Error → Error → Error
unwrap_or none e = e
unwrap_or (some last) e = last

module _ {Float : Type 0} (floats : Floats Float) where
  unfoldable pub delay_for_attempt : RetryConfig Float → ℕ → ℕ
  delay_for_attempt config attempt =
      if attempt == 0
      then 0
      else let base_delay =
          floats.times (floats.as_secs_f64 config.initial_delay)
            (floats.powi config.backoff_multiplier (attempt - 1)) in
        let capped_delay = floats.smaller base_delay (floats.as_secs_f64 config.max_delay) in
        let jitter_range = floats.times capped_delay config.jitter in
        let jitter =
          if floats.exceeds jitter_range floats.zero_point
          then floats.times
              (floats.times (floats.minus (floats.random attempt) floats.one_half) floats.two)
              jitter_range
          else floats.zero_point in
        floats.from_secs_f64 (floats.larger (floats.plus capped_delay jitter) floats.zero_point)

  -- The loop of `with_retry_stats`, with the attempts that are left, the number of the next, the last
  -- error and the statistics. Sleeping and the progress callback have no result.
  unfoldable pub retry_loop :
      {T : Type 0}
      → RetryConfig Float
      → (ℕ → Result T)
      → (left attempt : ℕ) → Option Error
      → RetryStats
      → Result T × RetryStats
  unfolding delay_for_attempt unwrap_or
  retry_loop config operation zero attempt last_error stats =
      (err (unwrap_or last_error (timeout (codes "all retries exhausted"))), stats)
  retry_loop config operation (suc left) attempt last_error stats =
      let waited : RetryStats = record stats {
        attempts = (attempt + 1) % 2 ^ 32;
        total_delay = stats.total_delay + delay_for_attempt config attempt;
      } in
      elim (operation attempt) [
        | ok result ↦ (ok result, record waited { succeeded = true })
        | panic ↦ (panic, waited)
        | err e ↦
            let again = retry_loop config operation left (attempt + 1) (some e) waited in
            let is_last = leb config.max_retries attempt in
            if (not is_last && is_retryable e) || is_last then again else (err e, waited)
      ]

  unfoldable pub with_retry_stats :
      {T : Type 0} → RetryConfig Float → (ℕ → Result T) → Result T × RetryStats
  unfolding retry_loop
  with_retry_stats config operation =
      retry_loop config operation (suc config.max_retries) 0 none
        (record { attempts = 0; total_delay = 0; succeeded = false })

  unfoldable pub with_retry : {T : Type 0} → RetryConfig Float → (ℕ → Result T) → Result T
  unfolding with_retry_stats
  with_retry config operation = (with_retry_stats config operation).0

  unfoldable pub provider_config : {P : Type 0} → RetryConfig Float → List P → RetryConfig Float
  provider_config config providers =
      if ltb 1 (length providers)
      then record config { max_retries = min config.max_retries 2 }
      else config

  -- The loop of `with_retry_providers`.
  unfoldable pub providers_loop :
      {P T : Type 0} → RetryConfig Float → (P → ℕ → Result T) → List P → Option Error → Result T
  unfolding with_retry unwrap_or
  providers_loop config operation [] last_error =
      err (unwrap_or last_error (protocol (codes "all providers failed")))
  providers_loop config operation (provider ∷ providers) last_error =
      elim (with_retry config (operation provider)) [
        | ok result ↦ ok result
        | err e ↦ providers_loop config operation providers (some e)
        | panic ↦ panic
      ]

  unfoldable pub with_retry_providers :
      {P T : Type 0} → RetryConfig Float → List P → (P → ℕ → Result T) → Result T
  unfolding providers_loop provider_config
  with_retry_providers config [] operation = err (protocol (codes "no providers available"))
  with_retry_providers config (provider ∷ providers) operation =
      providers_loop (provider_config config (provider ∷ providers)) operation
        (provider ∷ providers) none
