-- ===== src/Delivery/Retry.antt =====
-- src/delivery/retry.rs: which errors are retried, and after how long.
use lariska.Prelude.{ℕ, ◌*◌, ◌^◌, Option, none, some, min, max}
use lariska.Delivery.Host.{
  ApiError, auth, forbidden, conflict, validation, transient, fatal, payload_too_large,
  rate_limited,
}

-- Delays are milliseconds.
pub data RetryDecision : Type 0 where
  retry_after : ℕ → RetryDecision
  give_up : RetryDecision

abbrev pub base_backoff : ℕ
base_backoff = 2 * 1000

abbrev pub max_backoff : ℕ
max_backoff = 300 * 1000

abbrev pub max_backoff_exponent : ℕ
max_backoff_exponent = 16

abbrev pub max_delay : ℕ → ℕ
max_delay attempt = min (base_backoff * 2 ^ min attempt max_backoff_exponent) max_backoff

-- `jitter` is what the random generator returns: `gen_range(0..=n)` is at most `n`.
unfoldable pub backoff : (ℕ → ℕ) → ℕ → Option ℕ → ℕ
backoff jitter attempt (some after) = after
backoff jitter attempt none = jitter (max (max_delay attempt) 1)

unfoldable pub classify : (ℕ → ℕ) → ApiError → ℕ → RetryDecision
classify jitter (transient _) attempt = retry_after (backoff jitter attempt none)
classify jitter (rate_limited after) attempt = retry_after (backoff jitter attempt after)
classify jitter auth attempt = give_up
classify jitter (forbidden _) attempt = give_up
classify jitter (conflict _) attempt = give_up
classify jitter (validation _) attempt = give_up
classify jitter (payload_too_large _) attempt = give_up
classify jitter (fatal _) attempt = give_up
