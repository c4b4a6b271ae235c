-- ===== src/Services/Models.antt =====
-- The value types of src/client/src/services/model. A date is kept as the value that it is made of;
-- amounts and profits are whole numbers of a smallest unit.
pub mod Decimals
use reactive_trader_cloud.Common.{ℕ, ◌*◌, ◌^◌, ◌<◌, String, Bool, Option, List}
use reactive_trader_cloud.Common.Int.{ℤ}
use Decimals.{Decimal}

pub data UpdateType : Type 0 where
  added removed : UpdateType

pub data Direction : Type 0 where
  buy sell : Direction

pub data TradeStatus : Type 0 where
  pending done rejected : TradeStatus

pub data PriceMovementType : Type 0 where
  none_movement up down : PriceMovementType

pub record CurrencyPair : Type 0 where
  pub symbol : String
  pub rate_precision : ℕ
  pub pips_position : ℕ
  pub base : String
  pub terms : String
  pub display_string : String

pub record CurrencyPairUpdate : Type 0 where
  pub update_type : UpdateType
  pub currency_pair : CurrencyPair

pub record CurrencyPairUpdates : Type 0 where
  pub is_state_of_the_world : Bool
  pub is_stale : Bool
  pub currency_pair_updates : List CurrencyPairUpdate

-- What `toFixed` prints, and `Number` reads back: a sign and a whole number of 10 ^ -precision.
pub record FixedNumber : Type 0 where
  pub is_negative : Bool
  pub units : ℕ
  pub precision : ℕ

pub record Spread : Type 0 where
  pub value : FixedNumber
  pub formatted_value : FixedNumber

pub record Rate : Type 0 where
  pub raw_rate : Decimal
  pub big_figure : Decimal
  pub pips : ℕ
  pub pip_fraction : ℕ

pub record SpotPrice : Type 0 where
  pub symbol : String
  pub rate_precision : ℕ
  pub bid : Rate
  pub ask : Rate
  pub mid : Rate
  pub value_date : String
  pub creation_timestamp : ℕ
  pub price_movement_type : PriceMovementType
  pub spread : Spread
  pub is_tradable : Bool

pub record Trade : Type 0 where
  pub trade_id : ℕ
  pub trader_name : String
  pub currency_pair : CurrencyPair
  pub notional : ℕ
  pub dealt_currency : String
  pub direction : Direction
  pub spot_rate : Decimal
  pub trade_date : String
  pub value_date : String
  pub status : TradeStatus

pub record TradesUpdate : Type 0 where
  pub is_state_of_the_world : Bool
  pub is_stale : Bool
  pub trades : List Trade

-- `isNew` and `isInFocus` are undefined until they are assigned.
pub record TradeRow : Type 0 where
  pub trade : Trade
  pub is_new : Option Bool
  pub is_in_focus : Option Bool

pub record CurrencyPairPosition : Type 0 where
  pub symbol : String
  pub base_pnl : ℤ
  pub base_traded_amount : ℤ
  pub currency_pair : CurrencyPair

-- A profit may be missing.
pub record HistoricPosition : Type 0 where
  pub timestamp : String
  pub usd_pnl : Option ℤ

pub record PositionUpdates : Type 0 where
  pub current_positions : List CurrencyPairPosition
  pub history : List HistoricPosition

pub record ExecuteTradeRequest : Type 0 where
  pub currency_pair : String
  pub spot_rate : Decimal
  pub direction : String
  pub notional : ℕ
  pub dealt_currency : String

pub record ExecuteTradeResponse : Type 0 where
  pub trade : Option Trade
  pub error : String
  pub has_error : Bool

pub record RegionSettings : Type 0 where
  pub title : String
  pub width : ℕ
  pub height : ℕ
  pub dockable : Bool
