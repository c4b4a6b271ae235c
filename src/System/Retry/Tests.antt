-- ===== src/System/Retry/Tests.antt =====
-- Runs of a retried stream, and its theorems at concrete inputs.
use reactive_trader_cloud.Common.{ℕ, ◌≡◌, true, List, [], ◌∷◌}
use reactive_trader_cloud.System.Connection.Operations.{next, error}
use reactive_trader_cloud.System.Retry.{
  RetryEvent, source, elapsed, backoff_to_10_seconds_max, should_retry, retry_with_policy,
}
use reactive_trader_cloud.System.Retry.Delays.{delays, delays-retry_with_policy}

abbrev two_errors : List (RetryEvent ℕ)
two_errors = source (error "down") ∷ elapsed ∷ source (next 1) ∷ source (error "down") ∷ []

delays-retry_with_policy_example :
    delays (retry_with_policy (should_retry backoff_to_10_seconds_max) true two_errors)
    ≡ 1000 ∷ 2000 ∷ []
delays-retry_with_policy_example = delays-retry_with_policy true two_errors

abbrev due_later : List (RetryEvent ℕ)
due_later = elapsed ∷ []
