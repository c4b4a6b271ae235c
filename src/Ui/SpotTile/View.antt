-- ===== src/Ui/SpotTile/View.antt =====
-- What the tile shows and what a click publishes: spotTileView.jsx, tradeNotification.jsx,
-- priceButton.jsx and priceMovementIndicator.jsx of src/client/src/ui/spotTile/views. The big figure
-- of a price and the date of delivery are left to their formats.
mod Clicks
mod Tests
use reactive_trader_cloud.Common.{
  ℕ, String, Bool, true, false, not, ◌&&◌, ◌||◌, Option, none, some, List, [], ◌∷◌, ◌<>◌,
  if◌then◌else◌, ltb, ◌===◌,
}
use reactive_trader_cloud.Common.Result.{Result, returns, throws}
use reactive_trader_cloud.Services.Models.{
  Direction, buy, sell, TradeStatus, pending, done, rejected, Rate, PriceMovementType, up, down,
  none_movement, SpotPrice,
}
use reactive_trader_cloud.Services.Mappers.{direction_name}
use reactive_trader_cloud.Ui.Classes.{class_names}
use reactive_trader_cloud.Ui.SpotTile.{
  SpotTileModel, Event, execute_trade, Notification, text, trade_execution, TradeDetails,
  TradeExecutionNotification,
}

pub record PriceButton : Type 0 where
  pub direction : String
  pub pips : String
  pub tenth : ℕ

-- `decimal` is the decimal text of a number, which has one digit below ten.
unfoldable pub price_button : (ℕ → String) → Direction → Rate → PriceButton
price_button decimal direction rate = record {
  direction = direction_name direction;
  pips = if ltb rate.pips 10 then "0" <> decimal rate.pips else decimal rate.pips;
  tenth = rate.pip_fraction;
}

abbrev pub is_up : PriceMovementType → Bool
is_up up = true
is_up _ = false

abbrev pub is_down : PriceMovementType → Bool
is_down down = true
is_down _ = false

unfoldable pub up_direction_class_name : PriceMovementType → List String
up_direction_class_name t = class_names (
    ("price-movement__icon--up fa fa-lg", true)
    ∷ ("fa-caret-up", is_up t)
    ∷ ("price-movement__icon--inactive", is_down t)
    ∷ [])

unfoldable pub down_direction_class_name : PriceMovementType → List String
down_direction_class_name t = class_names (
    ("price-movement__icon--down fa fa-lg", true)
    ∷ ("fa-caret-down", is_down t)
    ∷ ("price-movement__icon--inactive", is_up t)
    ∷ [])

pub record PriceComponents : Type 0 where
  pub bid : PriceButton
  pub ask : PriceButton
  pub up_class : List String
  pub down_class : List String

unfoldable pub create_price_components : (ℕ → String) → SpotTileModel → Option PriceComponents
unfolding price_button up_direction_class_name down_direction_class_name
create_price_components decimal m = elim m.current_spot_price [
  | none ↦ none
  | some price ↦ some (record {
    bid = price_button decimal sell price.bid;
    ask = price_button decimal buy price.ask;
    up_class = up_direction_class_name price.price_movement_type;
    down_class = down_direction_class_name price.price_movement_type;
  })
]

pub data TradeView : Type 0 where
  trade_error : String → TradeView
  trade_summary : List String → TradeDetails → TradeView

abbrev pub is_rejected : TradeStatus → Bool
is_rejected rejected = true
is_rejected done = false
is_rejected pending = false

-- `TradeNotification`: a notification with neither an error nor a trade would make it throw.
unfoldable pub trade_notification_view : TradeExecutionNotification → Result TradeView
trade_notification_view n = elim n.error [
  | some error ↦ returns (trade_error error)
  | none ↦ elim n.details [
    | none ↦ throws "Cannot read property 'name' of undefined"
    | some details ↦ returns (
        trade_summary
          (class_names (
            ("trade-notification", true)
            ∷ ("spot-tile__trade-summary", true)
            ∷ ("trade-notification--rejected", is_rejected details.status)
            ∷ []))
          details)
  ]
]

pub data TileContent : Type 0 where
  prices : Option PriceComponents → TileContent
  message : String → TileContent
  trade : TradeView → TileContent

pub record TileView : Type 0 where
  pub class_name : List String
  pub content : TileContent

abbrev pub is_trade : Option Notification → Bool
is_trade (some (trade_execution n)) = true
is_trade _ = false

-- A text notification has no error.
abbrev pub has_error : Option Notification → Bool
has_error (some (trade_execution n)) = elim n.error [ none ↦ false | some e ↦ not (e === "") ]
has_error _ = false

unfoldable pub tile_class_name : SpotTileModel → List String
tile_class_name m = class_names (
    ("spot-tile", true)
    ∷ (
      "spot-tile--stale",
      (not m.pricing_connected || m.price_stale) && not (is_trade m.notification),
    )
    ∷ ("spot-tile--readonly", not m.execution_connected)
    ∷ ("spot-tile--executing", m.is_trade_execution_in_flight)
    ∷ ("spot-tile--error", has_error m.notification)
    ∷ [])

unfoldable pub content_of : (ℕ → String) → SpotTileModel → Result TileContent
unfolding create_price_components trade_notification_view
content_of decimal m = elim m.notification [
  | none ↦ returns (prices (create_price_components decimal m))
  | some n ↦ elim n [
    | text s ↦ returns (message s)
    | trade_execution t ↦ elim (trade_notification_view t) [
      | throws e ↦ throws e
      | returns v ↦ returns (trade v)
    ]
  ]
]

-- `render`
unfoldable pub tile_view : (ℕ → String) → SpotTileModel → Result TileView
unfolding tile_class_name content_of
tile_view decimal m = elim (content_of decimal m) [
  | throws e ↦ throws e
  | returns content ↦ returns (record { class_name = tile_class_name m; content = content })
]

-- A click on one of the two price buttons.
unfoldable pub on_execute_trade_clicked : Direction → SpotTileModel → List Event
on_execute_trade_clicked direction m =
    if m.execution_connected then execute_trade direction ∷ [] else []
