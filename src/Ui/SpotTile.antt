-- ===== src/Ui/SpotTile.antt =====
-- src/client/src/ui/spotTile/model: spotTileModel.js and notifications.js. An event is one that the
-- router or OpenFin delivers, or a value of a stream that the model subscribed to. A handler that
-- throws is an error. The formats of numbers and dates are those of the libraries.
pub mod Runs
pub mod Availability
pub mod InFlight
pub mod Returns
pub mod Loader
mod Dismissal
mod View
mod Tests
use reactive_trader_cloud.Common.{
  ℕ, ◌*◌, String, Bool, true, false, not, ◌&&◌, Option, none, some, List, [], ◌∷◌, ◌++◌, ◌===◌,
  ◌<>◌, if◌then◌else◌, ltb,
}
use reactive_trader_cloud.Common.Int.{ℤ, pos, abs, ltb_ℤ}
use reactive_trader_cloud.Common.Result.{Result, returns, throws, ◌>>=◌}
use reactive_trader_cloud.Services.Models.Decimals.{Decimal}
use reactive_trader_cloud.Services.Models.{
  Direction, buy, sell, TradeStatus, pending, done, rejected, CurrencyPair, SpotPrice, Trade,
  ExecuteTradeRequest, ExecuteTradeResponse,
}
use reactive_trader_cloud.Services.Mappers.{direction_name}

-- `numeral(…).format` and `utils.formatDate`
pub record Formats : Type 0 where
  pub format_notional : ℕ → String
  pub format_date : String → String

-- The fields that a trade fills, those that are undefined without one left out.
pub record TradeDetails : Type 0 where
  pub direction : String
  pub notional : String
  pub status : TradeStatus
  pub dealt_currency : String
  pub terms_currency : String
  pub spot_rate : Decimal
  pub formatted_value_date : String
  pub trade_id : ℕ

pub record TradeExecutionNotification : Type 0 where
  pub error : Option String
  pub details : Option TradeDetails

pub data Notification : Type 0 where
  text : String → Notification
  trade_execution : TradeExecutionNotification → Notification

-- What the serial disposable of the execution holds: the subscription of a trade, or that of a
-- request to close a position, with the sender's uuid and the correlation id. A subscription that
-- is replaced is disposed, and its handlers are called no more.
pub data Execution : Type 0 where
  unsubscribed trading : Execution
  closing : String → String → Execution

pub record SpotTileModel : Type 0 where
  pub currency_pair : CurrencyPair
  pub current_spot_price : Option SpotPrice
  pub notification : Option Notification
  pub notional : ℕ
  pub pricing_connected : Bool
  pub execution_connected : Bool
  pub price_stale : Bool
  pub is_trade_execution_in_flight : Bool
  pub currency_chart_is_opening : Bool
  pub execution : Execution

pub data Event : Type 0 where
  tile_closed pop_out_tile undock_tile display_currency_chart chart_settled : Event
  trade_notification_dismissed price_silent execution_error : Event
  notional_changed : ℕ → Event
  execute_trade : Direction → Event
  close_position : String → ℤ → String → String → Event
  execution_next : ExecuteTradeResponse → Event
  price_next : SpotPrice → Event
  statuses : Bool → Bool → Event

pub data Effect : Type 0 where
  remove_from_region popout : Effect
  undock_popout display_chart : String → Effect
  send_execution : ExecuteTradeRequest → Effect
  schedule_dismissal : ℕ → Effect
  publish_price : SpotPrice → Effect
  send_position_closed send_close_failed : String → String → Effect

abbrev dismiss_notification_after : ℕ
dismiss_notification_after = 4000

unfoldable pub new : CurrencyPair → SpotTileModel
new pair = record {
  currency_pair = pair;
  current_spot_price = none;
  notification = none;
  notional = 1000000;
  pricing_connected = false;
  execution_connected = false;
  price_stale = false;
  is_trade_execution_in_flight = false;
  currency_chart_is_opening = false;
  execution = unsubscribed;
}

-- `_updatePricingDownStatusNotification`: the notification that is shown afterwards.
unfoldable pub pricing_down_status : Bool → Bool → Option Notification → Option Notification
pricing_down_status connected stale (some (trade_execution n)) = some (trade_execution n)
pricing_down_status connected stale _ =
    if connected && not stale then none else some (text "Pricing is unavailable")

abbrev pub update_pricing_down_status_notification : SpotTileModel → SpotTileModel
update_pricing_down_status_notification m = record m {
  notification = pricing_down_status m.pricing_connected m.price_stale m.notification;
}

unfoldable pub create_trade_request : Direction → ℕ → SpotTileModel → Result ExecuteTradeRequest
create_trade_request direction notional m = elim m.current_spot_price [
  | none ↦ throws "Cannot read property 'ask' of null"
  | some price ↦ returns (record {
    currency_pair = m.currency_pair.symbol;
    spot_rate = elim direction [ buy ↦ price.ask.raw_rate | sell ↦ price.bid.raw_rate ];
    direction = direction_name direction;
    notional = notional;
    dealt_currency = elim direction [ buy ↦ m.currency_pair.base | sell ↦ m.currency_pair.terms ];
  })
]

unfoldable pub on_execute_trade : Direction → SpotTileModel → Result (SpotTileModel × List Effect)
unfolding create_trade_request
on_execute_trade direction m =
    if m.pricing_connected && m.execution_connected && not m.is_trade_execution_in_flight
    then (create_trade_request direction m.notional m >>= λ request. returns (
      record m { is_trade_execution_in_flight = true; execution = trading },
      send_execution request ∷ [],
    ))
    else returns (m, [])

-- `_closePositionRequestCallback`
unfoldable pub on_close_position :
    String → ℤ → String → String → SpotTileModel → Result (SpotTileModel × List Effect)
unfolding create_trade_request
on_close_position symbol amount uuid correlation m =
    if symbol === m.currency_pair.symbol
    then (create_trade_request (if ltb_ℤ (pos 0) amount then sell else buy) (abs amount) m
        >>= λ request.
            returns
              (record m { execution = closing uuid correlation }, send_execution request ∷ []))
    else returns (m, [])

unfoldable pub on_price_next : SpotPrice → SpotTileModel → SpotTileModel × List Effect
on_price_next price m =
    let kept = record m {
      current_spot_price =
          if m.is_trade_execution_in_flight then m.current_spot_price else some price;
    } in
    (
      if m.price_stale
          then update_pricing_down_status_notification (record kept { price_stale = false })
          else kept,
      publish_price price ∷ [],
    )

unfoldable pub on_price_silent : SpotTileModel → SpotTileModel
on_price_silent m = update_pricing_down_status_notification (record m { price_stale = true })

unfoldable pub on_statuses : Bool → Bool → SpotTileModel → SpotTileModel
on_statuses pricing execution m =
    update_pricing_down_status_notification
      (record m { pricing_connected = pricing; execution_connected = execution })

unfoldable pub create_for_error : String → TradeExecutionNotification
create_for_error error = record { error = some error; details = none }

-- An error ends the subscription that it reaches.
unfoldable pub on_execution_error : SpotTileModel → SpotTileModel × List Effect
unfolding create_for_error
on_execution_error m = elim m.execution [
  | unsubscribed ↦ (m, [])
  | trading ↦ (
    record m {
      is_trade_execution_in_flight = false;
      notification = some (trade_execution (create_for_error "Unknown stream error"));
      execution = unsubscribed;
    },
    [],
  )
  | closing uuid correlation ↦
      (record m { execution = unsubscribed }, send_close_failed uuid correlation ∷ [])
]

module _ (formats : Formats) where
  unfoldable pub create_for_success : Trade → TradeExecutionNotification
  create_for_success trade = record {
    error = none;
    details = some (record {
      direction = elim trade.direction [ sell ↦ "Sold" | buy ↦ "Bought" ];
      notional = formats.format_notional trade.notional;
      status = trade.status;
      dealt_currency = trade.currency_pair.base;
      terms_currency = trade.currency_pair.terms;
      spot_rate = trade.spot_rate;
      formatted_value_date = "SP. " <> formats.format_date trade.value_date;
      trade_id = trade.trade_id;
    });
  }

  -- The response to a trade. A response that has no error and no trade makes the handler throw.
  unfoldable pub on_trade_response :
      ExecuteTradeResponse → SpotTileModel → Result (SpotTileModel × List Effect)
  unfolding create_for_error create_for_success
  on_trade_response response m =
      let landed = record m { is_trade_execution_in_flight = false } in
      if response.has_error
      then returns (
        record landed { notification = some (trade_execution (create_for_error response.error)) },
        [],
      )
      else elim response.trade [
        | none ↦ throws "Cannot read property 'status' of null"
        | some trade ↦ returns (
          record landed { notification = some (trade_execution (create_for_success trade)) },
          elim trade.status [ done ↦ schedule_dismissal dismiss_notification_after ∷ [] | _ ↦ [] ],
        )
      ]

  unfoldable pub on_execution_next :
      ExecuteTradeResponse → SpotTileModel → Result (SpotTileModel × List Effect)
  unfolding on_trade_response
  on_execution_next response m = elim m.execution [
    | unsubscribed ↦ returns (m, [])
    | trading ↦ on_trade_response response m
    | closing uuid correlation ↦ returns (m, send_position_closed uuid correlation ∷ [])
  ]

  unfoldable pub step : Event → SpotTileModel → Result (SpotTileModel × List Effect)
  unfolding on_execute_trade on_close_position on_price_next on_price_silent on_statuses
      on_execution_next on_execution_error
  step tile_closed m = returns (m, remove_from_region ∷ [])
  step pop_out_tile m = returns (m, popout ∷ [])
  step undock_tile m = returns (m, undock_popout (m.currency_pair.symbol <> " Spot") ∷ [])
  step display_currency_chart m =
      returns
        (record m { currency_chart_is_opening = true }, display_chart m.currency_pair.symbol ∷ [])
  step chart_settled m = returns (record m { currency_chart_is_opening = false }, [])
  step trade_notification_dismissed m =
      returns (update_pricing_down_status_notification (record m { notification = none }), [])
  step price_silent m = returns (on_price_silent m, [])
  step execution_error m = returns (on_execution_error m)
  step (notional_changed notional) m = returns (record m { notional = notional }, [])
  step (execute_trade direction) m = on_execute_trade direction m
  step (close_position symbol amount uuid correlation) m =
      on_close_position symbol amount uuid correlation m
  step (execution_next response) m = on_execution_next response m
  step (price_next price) m = returns (on_price_next price m)
  step (statuses pricing execution) m = returns (on_statuses pricing execution m, [])

  -- The events in order, up to the first handler that throws.
  unfoldable pub run : SpotTileModel → List Event → Result (SpotTileModel × List Effect)
  unfolding step
  run m [] = returns (m, [])
  run m (event ∷ events) = do
    now ← step event m
    later ← run now.0 events
    returns (later.0, now.1 ++ later.1)
