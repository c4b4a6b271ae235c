-- ===== src/Ui/Blotter/Stream.antt =====
-- `_subscribeToTradeStream` of src/client/src/ui/blotter/model/blotterModel.js: the blotter on the trade
-- stream of services/blotterService.js, by way of `subscribeWithRouter`.
mod Tests
use reactive_trader_cloud.Common.{
  ℕ, ◌≡◌, refl, sym, ap, ◌∙◌, subst, String, Option, some, none, List, [], ◌∷◌, ◌++◌, map, All,
}
use reactive_trader_cloud.Common.Result.{Result, returns}
use reactive_trader_cloud.System.Connection.Operations.{Notification, next, error, completed}
use reactive_trader_cloud.System.Retry.{RetryEvent}
use reactive_trader_cloud.System.Router.{Handlers, on_notification, subscribe_with_router}
use reactive_trader_cloud.Services.Models.{CurrencyPair, TradesUpdate}
use reactive_trader_cloud.Services.Mappers.{TradesDto, map_trades_from_dto}
use reactive_trader_cloud.Services.Streams.{get_trades_stream}
use reactive_trader_cloud.Services.Streams.Values.{sent, values_of, mapped_while, values-retried}
use reactive_trader_cloud.Ui.Blotter.{
  SortTrades, BlotterModel, Effect, Event, trades_update, new, on_trades_update, step, run,
}
use reactive_trader_cloud.Ui.Blotter.Ids.{IsPlainEvent}
use reactive_trader_cloud.Ui.Blotter.Updates.{shown}
use reactive_trader_cloud.Ui.Blotter.Account.{table, blank, shown-run}

module _ (lodash : SortTrades) (get_currency_pair : String → Result CurrencyPair) where
  -- The model and the calls that it has made so far. An error is logged.
  unfoldable pub trade_handlers : Handlers TradesUpdate (BlotterModel × List Effect)
  unfolding on_trades_update
  trade_handlers = record {
    on_next =
        some (λ u (m, effects).
          let (m', later) = on_trades_update lodash u m in (m', effects ++ later));
    on_error = some (λ e s. s);
    on_completed = none;
  }

  -- The model has no `postProcess`: the dispatch loop runs the action.
  unfoldable pub subscribe_to_trade_stream :
      List (RetryEvent TradesDto) → BlotterModel → Result (BlotterModel × List Effect)
  unfolding trade_handlers subscribe_with_router get_trades_stream
  subscribe_to_trade_stream es m =
      subscribe_with_router (λ action s. action s) trade_handlers
        (get_trades_stream get_currency_pair es) (m, [])

  follows-run :
      (ns : List (Notification TradesUpdate)) (m : BlotterModel) (effects : List Effect)
      → (effects' : List Effect) × (subscribe_with_router
            (λ action s. action s)
            trade_handlers
            ns
            (m, effects)
          ≡ returns ((run lodash m (map trades_update (values_of ns))).0, effects'))
  unfolding subscribe_with_router on_notification trade_handlers run step
  follows-run [] m effects = (effects, refl)
  follows-run (next u ∷ ns) m effects =
      let (m', later) = on_trades_update lodash u m in follows-run ns m' (effects ++ later)
  follows-run (error e ∷ ns) m effects = follows-run ns m effects
  follows-run (completed ∷ ns) m effects = follows-run ns m effects

  -- The updates that the messages of the source make, up to the first that cannot be mapped.
  abbrev pub received : List (RetryEvent TradesDto) → List Event
  received es = map trades_update (mapped_while (map_trades_from_dto get_currency_pair) (sent es))

  -- A new blotter on the trade stream, over any messages and errors of the source, retries and the
  -- end: nothing is thrown, and the first row with an id shows the trade that the plain table of the
  -- messages has for it, those of all subscriptions to the source in order, up to the first that
  -- cannot be mapped; where no state of the world among them names a trade id twice, and for every
  -- sortBy that orders the trades by id and permutes them.
  pub shown-subscribe_to_trade_stream :
      (es : List (RetryEvent TradesDto))
      → All IsPlainEvent (received es)
      → (m : BlotterModel) × (effects : List Effect) × (subscribe_to_trade_stream es new
          ≡ returns (m, effects))
        × ((k : ℕ) → shown k m.trades ≡ table blank (received es) k)
  unfolding subscribe_to_trade_stream get_trades_stream
  shown-subscribe_to_trade_stream es n =
      let ns = get_trades_stream get_currency_pair es in
      let (effects, e) = follows-run ns new [] in
      let same : values_of ns ≡ mapped_while (map_trades_from_dto get_currency_pair) (sent es) =
        values-retried (map_trades_from_dto get_currency_pair) es in
      (
        (run lodash new (received es)).0,
        effects,
        e ∙ ap (λ us. returns ((run lodash new (map trades_update us)).0, effects)) same,
        λ k. shown-run lodash (received es) k n,
      )
