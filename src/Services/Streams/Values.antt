-- ===== src/Services/Streams/Values.antt =====
-- What a retried and mapped stream passes on.
use reactive_trader_cloud.Common.{
  ◌≡◌, refl, ap, ◌∙◌, ℕ, suc, true, false, List, [], ◌∷◌, ◌++◌, arith, inl, inr, String,
}
use reactive_trader_cloud.Common.Result.{Result, returns, throws, Result-cases}
use reactive_trader_cloud.System.Connection.Operations.{Notification, next, error, completed}
use reactive_trader_cloud.System.Retry.{
  backoff_to_10_seconds_max, should_retry, RetryEvent, source, elapsed, disposes, RetryEffect,
  notify, run, retry, callback, retry_with_policy, Retrying,
}
use reactive_trader_cloud.Services.Streams.{mapped_messages, retried}

module _ {D : Type 0} where
  -- The messages of the source, of all its subscriptions, until it is completed or disposed of.
  abbrev pub sent : List (RetryEvent D) → List D
  sent [] = []
  sent (source (next dto) ∷ es) = dto ∷ sent es
  sent (source (error e) ∷ es) = sent es
  sent (source completed ∷ es) = []
  sent (elapsed ∷ es) = sent es
  sent (disposes ∷ es) = []

module _ {U : Type 0} where
  abbrev pub values_of : List (Notification U) → List U
  values_of [] = []
  values_of (next u ∷ ns) = u ∷ values_of ns
  values_of (error e ∷ ns) = values_of ns
  values_of (completed ∷ ns) = values_of ns

module _ {D U : Type 0} (map_from_dto : D → Result U) where
  -- The messages up to the first one that cannot be mapped, mapped.
  unfoldable pub mapped_while : List D → List U
  mapped_while [] = []
  mapped_while (dto ∷ dtos) = elim (map_from_dto dto) [
    | throws e ↦ []
    | returns u ↦ u ∷ mapped_while dtos
  ]

  next-mapped :
      (dto : D) (es : List (RetryEffect D)) (dtos : List D)
      → values_of (mapped_messages map_from_dto es) ≡ mapped_while dtos
      → values_of (mapped_messages map_from_dto (notify (next dto) ∷ es))
        ≡ mapped_while (dto ∷ dtos)
  unfolding mapped_messages mapped_while
  next-mapped dto es dtos h = elim (Result-cases (map_from_dto dto)) [
    | inl (u, e) ↦ ground (arith, h)
    | inr (x, e) ↦ ground arith
  ]

  -- The answer to an error of the source is a new subscription, now or later.
  error-mapped :
      (n : ℕ) (message : String) (es : List (RetryEffect D))
      → mapped_messages map_from_dto (
          retry
            (should_retry backoff_to_10_seconds_max)
            false
            message
            (should_retry backoff_to_10_seconds_max n)
          ++ es)
        ≡ mapped_messages map_from_dto es
  unfolding mapped_messages retry should_retry
  error-mapped n message es = ground arith

  abbrev retrying : Retrying → List (RetryEvent D) → List U
  retrying s es =
      values_of
        (mapped_messages map_from_dto (run (should_retry backoff_to_10_seconds_max) false s es))

  disposed-values :
      (n : ℕ) (es : List (RetryEvent D))
      → retrying (record { retry_count = n; is_disposed = true }) es ≡ []
  unfolding run mapped_messages callback
  disposed-values n [] = refl
  disposed-values n (source (next dto) ∷ es) = disposed-values n es
  disposed-values n (source (error e) ∷ es) =
      let s : Retrying = record { retry_count = suc n; is_disposed = true } in
      ap values_of
        (error-mapped (suc n) e (run (should_retry backoff_to_10_seconds_max) false s es))
      ∙ disposed-values (suc n) es
  disposed-values n (source completed ∷ es) = refl
  disposed-values n (elapsed ∷ es) = disposed-values n es
  disposed-values n (disposes ∷ es) = disposed-values n es

  run-values :
      (n : ℕ) (es : List (RetryEvent D))
      → retrying (record { retry_count = n; is_disposed = false }) es ≡ mapped_while (sent es)
  unfolding run mapped_messages callback mapped_while
  run-values n [] = refl
  run-values n (source (next dto) ∷ es) =
      let s : Retrying = record { retry_count = n; is_disposed = false } in
      next-mapped dto (run (should_retry backoff_to_10_seconds_max) false s es) (sent es)
        (run-values n es)
  run-values n (source (error e) ∷ es) =
      let s : Retrying = record { retry_count = suc n; is_disposed = false } in
      ap values_of
        (error-mapped (suc n) e (run (should_retry backoff_to_10_seconds_max) false s es))
      ∙ run-values (suc n) es
  run-values n (source completed ∷ es) = refl
  run-values n (elapsed ∷ es) = run-values n es
  run-values n (disposes ∷ es) = disposed-values n es

  -- A retried stream passes on, in order and mapped, the messages of all the subscriptions to its
  -- source, whatever errors come between them, up to the first message that cannot be mapped, the
  -- end of the source or the disposal.
  pub values-retried :
      (es : List (RetryEvent D)) → values_of (retried map_from_dto es) ≡ mapped_while (sent es)
  unfolding retried mapped_messages retry_with_policy
  values-retried es = run-values 0 es
