-- ===== src/System/Retry.antt =====
-- retryPolicy.js, shouldRetryResult.js and retryPolicyExt.js of
-- src/client/src/system/observableExtensions.
pub mod Delays
pub mod Tests
use reactive_trader_cloud.Common.{
  ℕ, suc, ◌*◌, String, Bool, true, false, List, [], ◌∷◌, ◌++◌, if◌then◌else◌, ltb, ◌==◌,
}
use reactive_trader_cloud.System.Connection.Operations.{Notification, next, error, completed}

pub record ShouldRetryResult : Type 0 where
  pub should_retry : Bool
  pub retry_after_milliseconds : ℕ

-- The classes of the policies; none of them looks at the error.
pub data RetryPolicy : Type 0 where
  indefinite indefinite_every_2_seconds backoff_to_10_seconds_max : RetryPolicy

abbrev pub retry_after : ℕ → ShouldRetryResult
retry_after delay = record { should_retry = true; retry_after_milliseconds = delay }

unfoldable pub should_retry : RetryPolicy → ℕ → ShouldRetryResult
should_retry indefinite retry_count = retry_after 0
should_retry indefinite_every_2_seconds retry_count = retry_after 2000
should_retry backoff_to_10_seconds_max retry_count =
    let delay = retry_count * 1000 in retry_after (if ltb delay 10000 then delay else 10000)

-- The variables of `retryWithPolicy`.
pub record Retrying : Type 0 where
  pub retry_count : ℕ
  pub is_disposed : Bool

pub data RetryEvent (A : Type 0) : Type 0 where
  source : Notification A → RetryEvent A  -- of the current subscription
  elapsed : RetryEvent A  -- the action of a scheduled retry
  disposes : RetryEvent A

pub data RetryEffect (A : Type 0) : Type 0 where
  subscribe_source dispose_subscription : RetryEffect A
  schedule : ℕ → RetryEffect A
  notify : Notification A → RetryEffect A
  error_callback : String → ShouldRetryResult → RetryEffect A

module _ {A : Type 0} (policy : ℕ → ShouldRetryResult) (has_callback : Bool) where
  -- The answer to an error, once the count has been raised.
  unfoldable pub retry : String → ShouldRetryResult → List (RetryEffect A)
  retry e r =
      if r.should_retry
      then (if r.retry_after_milliseconds == 0
          then subscribe_source ∷ []
          else schedule r.retry_after_milliseconds ∷ [])
      else notify (error e) ∷ []

  unfoldable pub callback : String → ShouldRetryResult → List (RetryEffect A)
  callback e r = if has_callback then error_callback e r ∷ [] else []

  unfoldable pub step : Retrying → RetryEvent A → Retrying × List (RetryEffect A)
  unfolding retry callback
  step s (source (next a)) = (s, if s.is_disposed then [] else (notify (next a) ∷ []))
  step s (source (error e)) =
      let r = policy (suc s.retry_count) in
      (record s { retry_count = suc s.retry_count }, callback e r ++ retry e r)
  step s (source completed) = (s, notify completed ∷ [])
  step s elapsed = (s, subscribe_source ∷ [])
  step s disposes = (record s { is_disposed = true }, dispose_subscription ∷ [])

  unfoldable pub run : Retrying → List (RetryEvent A) → List (RetryEffect A)
  unfolding step
  run s [] = []
  run s (e ∷ es) = let (s', now) = step s e in now ++ run s' es

  -- Subscribing to the result: the first `subscribe()` and what follows.
  unfoldable pub retry_with_policy : List (RetryEvent A) → List (RetryEffect A)
  unfolding run
  retry_with_policy es = subscribe_source ∷ run (record { retry_count = 0; is_disposed = false }) es
