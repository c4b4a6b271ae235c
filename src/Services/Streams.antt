-- ===== src/Services/Streams.antt =====
-- The streams of src/client/src/services/blotterService.js and analyticsService.js: the messages of a
-- stream operation, retried with the backoff policy, and mapped after the retry.
pub mod Values
use reactive_trader_cloud.Common.{String, Bool, false, List, [], ◌∷◌}
use reactive_trader_cloud.Common.Result.{Result, returns, throws}
use reactive_trader_cloud.System.Connection.Operations.{Notification, next, error, completed}
use reactive_trader_cloud.System.Retry.{
  backoff_to_10_seconds_max, should_retry, RetryEvent, RetryEffect, subscribe_source,
  dispose_subscription, schedule, notify, error_callback, retry_with_policy,
}
use reactive_trader_cloud.Services.Models.{CurrencyPair, TradesUpdate, PositionUpdates}
use reactive_trader_cloud.Services.Mappers.{
  TradesDto, PositionsDto, map_trades_from_dto, map_positions_from_dto,
}

module _ {D U : Type 0} (map_from_dto : D → Result U) where
  -- What the operator `map` passes on: an error of the function or of the source ends the stream.
  unfoldable pub mapped_messages : List (RetryEffect D) → List (Notification U)
  mapped_messages [] = []
  mapped_messages (notify (next dto) ∷ es) = elim (map_from_dto dto) [
    | throws e ↦ error e ∷ []
    | returns u ↦ next u ∷ mapped_messages es
  ]
  mapped_messages (notify (error e) ∷ es) = error e ∷ []
  mapped_messages (notify completed ∷ es) = completed ∷ []
  mapped_messages (subscribe_source ∷ es) = mapped_messages es
  mapped_messages (dispose_subscription ∷ es) = mapped_messages es
  mapped_messages (schedule delay ∷ es) = mapped_messages es
  mapped_messages (error_callback e r ∷ es) = mapped_messages es

  -- The stream over what happens to its source and its timers.
  unfoldable pub retried : List (RetryEvent D) → List (Notification U)
  unfolding mapped_messages retry_with_policy
  retried es = mapped_messages (retry_with_policy (should_retry backoff_to_10_seconds_max) false es)

module _ (get_currency_pair : String → Result CurrencyPair) where
  unfoldable pub get_trades_stream : List (RetryEvent TradesDto) → List (Notification TradesUpdate)
  unfolding retried map_trades_from_dto
  get_trades_stream es = retried (map_trades_from_dto get_currency_pair) es

  unfoldable pub get_analytics_stream :
      List (RetryEvent PositionsDto) → List (Notification PositionUpdates)
  unfolding retried map_positions_from_dto
  get_analytics_stream es = retried (map_positions_from_dto get_currency_pair) es
