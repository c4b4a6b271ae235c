-- ===== src/System/Retry/Delays.antt =====
-- When the client's streams are retried.
use reactive_trader_cloud.Common.{
  ℕ, zero, suc, ◌+◌, ◌*◌, ◌≡◌, refl, ap, min, Bool, true, false, List, [], ◌∷◌, ◌++◌, arith,
}
use reactive_trader_cloud.System.Connection.Operations.{next, error, completed}
use reactive_trader_cloud.System.Retry.{
  RetryPolicy, indefinite_every_2_seconds, backoff_to_10_seconds_max, should_retry, Retrying,
  RetryEvent, source, elapsed, disposes, RetryEffect, subscribe_source, dispose_subscription,
  schedule, notify, error_callback, run, retry_with_policy,
}

module _ {A : Type 0} where
  abbrev pub delays : List (RetryEffect A) → List ℕ
  delays [] = []
  delays (subscribe_source ∷ es) = delays es
  delays (dispose_subscription ∷ es) = delays es
  delays (schedule d ∷ es) = d ∷ delays es
  delays (notify n ∷ es) = delays es
  delays (error_callback e r ∷ es) = delays es

  abbrev pub subscriptions : List (RetryEffect A) → ℕ
  subscriptions [] = 0
  subscriptions (subscribe_source ∷ es) = suc (subscriptions es)
  subscriptions (dispose_subscription ∷ es) = subscriptions es
  subscriptions (schedule d ∷ es) = subscriptions es
  subscriptions (notify n ∷ es) = subscriptions es
  subscriptions (error_callback e r ∷ es) = subscriptions es

  -- The errors that the observer is given.
  abbrev pub errors_passed : List (RetryEffect A) → ℕ
  errors_passed [] = 0
  errors_passed (notify (error e) ∷ es) = suc (errors_passed es)
  errors_passed (notify (next a) ∷ es) = errors_passed es
  errors_passed (notify completed ∷ es) = errors_passed es
  errors_passed (subscribe_source ∷ es) = errors_passed es
  errors_passed (dispose_subscription ∷ es) = errors_passed es
  errors_passed (schedule d ∷ es) = errors_passed es
  errors_passed (error_callback e r ∷ es) = errors_passed es

  abbrev pub errors : List (RetryEvent A) → ℕ
  errors [] = 0
  errors (source (next a) ∷ es) = errors es
  errors (source (error e) ∷ es) = suc (errors es)
  errors (source completed ∷ es) = errors es
  errors (elapsed ∷ es) = errors es
  errors (disposes ∷ es) = errors es

  abbrev pub elapses : List (RetryEvent A) → ℕ
  elapses [] = 0
  elapses (source n ∷ es) = elapses es
  elapses (elapsed ∷ es) = suc (elapses es)
  elapses (disposes ∷ es) = elapses es

-- A second for each error so far, up to ten seconds.
abbrev pub backoff_delays : ℕ → ℕ → List ℕ
backoff_delays so_far zero = []
backoff_delays so_far (suc n) = min (suc so_far * 1000) 10000 ∷ backoff_delays (suc so_far) n

module _ {A : Type 0} (has_callback : Bool) where
  delays-run :
      (s : Retrying) (es : List (RetryEvent A))
      → delays (run (should_retry backoff_to_10_seconds_max) has_callback s es)
        ≡ backoff_delays s.retry_count (errors es)
  unfolding run should_retry
  delays-run s [] = refl
  delays-run s (source (next a) ∷ es) = ground (arith, delays-run s es)
  delays-run s (source (error e) ∷ es) =
      ground (arith, delays-run (record s { retry_count = suc s.retry_count }) es)
  delays-run s (source completed ∷ es) = delays-run s es
  delays-run s (elapsed ∷ es) = delays-run s es
  delays-run s (disposes ∷ es) = delays-run (record s { is_disposed = true }) es

  -- With the backoff policy the k-th error of a stream schedules a retry after k seconds, and after
  -- ten seconds from the tenth on, whatever happens between the errors.
  pub delays-retry_with_policy :
      (es : List (RetryEvent A))
      → delays (retry_with_policy (should_retry backoff_to_10_seconds_max) has_callback es)
        ≡ backoff_delays 0 (errors es)
  unfolding retry_with_policy
  delays-retry_with_policy es = delays-run (record { retry_count = 0; is_disposed = false }) es

  errors_passed-run :
      (p : RetryPolicy) (s : Retrying) (es : List (RetryEvent A))
      → errors_passed (run (should_retry p) has_callback s es) ≡ 0
  unfolding run should_retry
  errors_passed-run p s [] = refl
  errors_passed-run p s (source (next a) ∷ es) = ground (arith, errors_passed-run p s es)
  errors_passed-run p s (source (error e) ∷ es) =
      ground (arith, errors_passed-run p (record s { retry_count = suc s.retry_count }) es)
  errors_passed-run p s (source completed ∷ es) = errors_passed-run p s es
  errors_passed-run p s (elapsed ∷ es) = errors_passed-run p s es
  errors_passed-run p s (disposes ∷ es) = errors_passed-run p (record s { is_disposed = true }) es

  -- Under each of the policies the observer of a retried stream is never given an error.
  pub errors_passed-retry_with_policy :
      (p : RetryPolicy) (es : List (RetryEvent A))
      → errors_passed (retry_with_policy (should_retry p) has_callback es) ≡ 0
  unfolding retry_with_policy
  errors_passed-retry_with_policy p es =
      errors_passed-run p (record { retry_count = 0; is_disposed = false }) es

  subscriptions-run :
      (s : Retrying) (es : List (RetryEvent A))
      → subscriptions (run (should_retry indefinite_every_2_seconds) has_callback s es) ≡ elapses es
  unfolding run should_retry
  subscriptions-run s [] = refl
  subscriptions-run s (source (next a) ∷ es) = ground (arith, subscriptions-run s es)
  subscriptions-run s (source (error e) ∷ es) =
      ground (arith, subscriptions-run (record s { retry_count = suc s.retry_count }) es)
  subscriptions-run s (source completed ∷ es) = subscriptions-run s es
  subscriptions-run s (elapsed ∷ es) = ap suc (subscriptions-run s es)
  subscriptions-run s (disposes ∷ es) = subscriptions-run (record s { is_disposed = true }) es

  -- With a retry every two seconds, the source is subscribed to once at the start and once for each
  -- scheduled retry that comes due, also for those that come due after the result was disposed.
  pub subscriptions-retry_with_policy :
      (before after : List (RetryEvent A))
      → subscriptions (
          retry_with_policy
            (should_retry indefinite_every_2_seconds)
            has_callback
            (before ++ disposes ∷ after))
        ≡ suc (elapses before + elapses after)
  unfolding retry_with_policy
  subscriptions-retry_with_policy before after = omega (
    arith,
    subscriptions-run (record { retry_count = 0; is_disposed = false })
        (before ++ disposes ∷ after),
    elapses-append before (disposes ∷ after),
  )
    where
      elapses-append : (xs ys : List (RetryEvent A)) → elapses (xs ++ ys) ≡ elapses xs + elapses ys
      elapses-append [] ys = omega arith
      elapses-append (source n ∷ xs) ys = elapses-append xs ys
      elapses-append (elapsed ∷ xs) ys = omega (arith, elapses-append xs ys)
      elapses-append (disposes ∷ xs) ys = elapses-append xs ys
