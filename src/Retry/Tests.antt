-- ===== src/Retry/Tests.antt =====
-- Runs of the retries of iroh-nix/src/retry.rs.
use iroh_nix.Support.{
  ℕ, ◌+◌, ◌-◌, ◌*◌, ◌^◌, min, ◌≡◌, refl, Bool, true, false, [], ◌∷◌, arith, ltb, if◌then◌else◌,
  codes, bytes_eq, eq_nat, eq_bytes,
}
use iroh_nix.Error.{connection, remote, Result, ok, err}
use iroh_nix.Retry.{
  Floats, RetryConfig, delay_for_attempt, has_text, starts_with, is_retryable, with_retry_stats,
  with_retry_providers,
}
use iroh_nix.Retry.Attempts.{StopsAt, with_retry_stats-StopsAt}
use iroh_nix.Retry.Providers.{FirstAnswer, with_retry_providers-FirstAnswer}

abbrev patient : RetryConfig ℕ
patient = record {
  max_retries = 10;
  initial_delay = 10 ^ 9;
  max_delay = 60 * 10 ^ 9;
  backoff_multiplier = 2;
  jitter = 0;
}

-- Whole numbers of nanoseconds in place of seconds.
abbrev whole : Floats ℕ
whole = record {
  zero_point = 0;
  one_half = 0;
  two = 2;
  as_secs_f64 = λ n. n;
  from_secs_f64 = λ x. x;
  times = λ x y. x * y;
  plus = λ x y. x + y;
  minus = λ x y. x - y;
  smaller = min;
  larger = λ x y. y + (x - y);
  powi = λ x n. x ^ n;
  exceeds = λ x y. ltb y x;
  random = λ attempt. attempt;
}

-- The delays double up to the greatest.
delays_double : delay_for_attempt whole patient 3 ≡ 4 * 10 ^ 9
unfolding delay_for_attempt
delays_double = refl

-- Two connection errors, and then an answer.
abbrev third_time : ℕ → Result ℕ
third_time attempt = if ltb attempt 2 then err (connection []) else ok 7

abbrev by_provider : Bool → ℕ → Result ℕ
by_provider true attempt = third_time attempt
by_provider false attempt = err (remote (codes "not found"))

not_found_is_permanent : is_retryable (remote (codes "path not found")) ≡ false
unfolding is_retryable has_text starts_with bytes_eq
not_found_is_permanent = refl

with_retry_stats-StopsAt_example :
    (k : ℕ) × StopsAt whole patient third_time 0 (with_retry_stats whole patient third_time) k
with_retry_stats-StopsAt_example = with_retry_stats-StopsAt whole patient third_time (omega arith)

with_retry_providers-FirstAnswer_example :
    FirstAnswer whole by_provider
      (record patient { max_retries = 2 })
      (false ∷ true ∷ [])
      (with_retry_providers whole patient (false ∷ true ∷ []) by_provider)
with_retry_providers-FirstAnswer_example =
    with_retry_providers-FirstAnswer whole by_provider patient false (true ∷ [])
