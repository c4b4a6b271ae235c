-- ===== src/Services/Mappers.antt =====
-- src/client/src/services/mappers: what the back end sends, made into the client's values. The
-- reference data service is its method `getCurrencyPair`.
pub mod Rates
mod Accepted
pub mod Names
pub mod Prices
pub mod Tests
use Prim.Native.String.{String}
use reactive_trader_cloud.Common.{
  ℕ, zero, suc, ◌-◌, ◌*◌, ◌^◌, Bool, true, false, Option, none, some, List, [], ◌∷◌, ◌===◌, ◌<>◌,
  if◌then◌else◌,
}
use reactive_trader_cloud.Common.Int.{ℤ}
use reactive_trader_cloud.Common.Result.{Result, returns, throws, ◌>>=◌, traverse}
use reactive_trader_cloud.Services.Models.Decimals.{Decimal, less}
use reactive_trader_cloud.Services.Models.{
  UpdateType, added, removed, Direction, buy, sell, TradeStatus, pending, done, rejected,
  PriceMovementType, none_movement, up, down, CurrencyPair, CurrencyPairUpdate, CurrencyPairUpdates,
  SpotPrice, Trade, TradesUpdate, CurrencyPairPosition, HistoricPosition, PositionUpdates,
}
use Rates.{new_rate, new_spread}

-- `name` of the enumerations
abbrev pub update_type_name : UpdateType → String
update_type_name added = "Added"
update_type_name removed = "Removed"

abbrev pub direction_name : Direction → String
direction_name buy = "Buy"
direction_name sell = "Sell"

abbrev pub trade_status_name : TradeStatus → String
trade_status_name pending = "Pending"
trade_status_name done = "Done"
trade_status_name rejected = "Rejected"

-- Reference data

unfoldable pub map_update_type : String → Result UpdateType
map_update_type s =
    if s === update_type_name added
    then returns added
    else (if s === update_type_name removed
        then returns removed
        else throws ("Unknown update type [" <> s <> "]"))

abbrev pub take_text : ℕ → String → String
take_text zero s = String.[]
take_text (suc n) String.[] = String.[]
take_text (suc n) (String.◌∷◌ c s) = String.◌∷◌ c (take_text n s)

abbrev pub drop_text : ℕ → String → String
drop_text zero s = s
drop_text (suc n) String.[] = String.[]
drop_text (suc n) (String.◌∷◌ c s) = drop_text n s

-- The constructor of `CurrencyPair`.
unfoldable pub new_currency_pair : String → ℕ → ℕ → CurrencyPair
new_currency_pair symbol rate_precision pips_position =
    let base = take_text 3 symbol in
    let terms = take_text 3 (drop_text 3 symbol) in
    record {
      symbol = symbol;
      rate_precision = rate_precision;
      pips_position = pips_position;
      base = base;
      terms = terms;
      display_string = base <> "/" <> terms;
    }

pub record CurrencyPairDto : Type 0 where
  pub symbol : String
  pub rate_precision : ℕ
  pub pips_position : ℕ

pub record CurrencyPairUpdateDto : Type 0 where
  pub update_type : String
  pub currency_pair : CurrencyPairDto

pub record CurrencyPairUpdatesDto : Type 0 where
  pub is_state_of_the_world : Bool
  pub is_stale : Bool
  pub updates : List CurrencyPairUpdateDto

unfoldable pub map_from_currency_pair_dto : CurrencyPairDto → CurrencyPair
unfolding new_currency_pair
map_from_currency_pair_dto dto = new_currency_pair dto.symbol dto.rate_precision dto.pips_position

unfoldable pub map_update_from_dto : CurrencyPairUpdateDto → Result CurrencyPairUpdate
unfolding map_update_type map_from_currency_pair_dto
map_update_from_dto dto = do
  t ← map_update_type dto.update_type
  returns (record { update_type = t; currency_pair = map_from_currency_pair_dto dto.currency_pair })

unfoldable pub map_currency_pairs_from_dto : CurrencyPairUpdatesDto → Result CurrencyPairUpdates
unfolding traverse map_update_from_dto
map_currency_pairs_from_dto dto = do
  us ← traverse map_update_from_dto dto.updates
  returns (record {
    is_state_of_the_world = dto.is_state_of_the_world;
    is_stale = dto.is_stale;
    currency_pair_updates = us;
  })

-- Trades

unfoldable pub map_direction_from_dto : String → Result Direction
map_direction_from_dto s =
    if s === direction_name buy
    then returns buy
    else (if s === direction_name sell then returns sell else throws ("Unknown direction " <> s))

unfoldable pub map_trade_status_from_dto : String → Result TradeStatus
map_trade_status_from_dto s =
    if s === trade_status_name pending
    then returns pending
    else (if s === trade_status_name done
        then returns done
        else (if s === trade_status_name rejected
            then returns rejected
            else throws ("Unknown trade status " <> s)))

pub record TradeDto : Type 0 where
  pub trade_id : ℕ
  pub trader_name : String
  pub currency_pair : String
  pub notional : ℕ
  pub dealt_currency : String
  pub direction : String
  pub spot_rate : Decimal
  pub trade_date : String
  pub value_date : String
  pub status : String

pub record TradesDto : Type 0 where
  pub is_state_of_the_world : Bool
  pub is_stale : Bool
  pub trades : List TradeDto

pub record PriceDto : Type 0 where
  pub symbol : String
  pub bid : Decimal
  pub ask : Decimal
  pub mid : Decimal
  pub value_date : String
  pub creation_timestamp : ℕ

pub record PositionDto : Type 0 where
  pub symbol : String
  pub base_pnl : ℤ
  pub base_traded_amount : ℤ

pub record PositionsDto : Type 0 where
  pub current_positions : List PositionDto
  pub history : List HistoricPosition

-- `_getPriceMovementType`
unfoldable pub get_price_movement_type : Option PriceDto → PriceDto → PriceMovementType
unfolding less
get_price_movement_type none next = none_movement
get_price_movement_type (some last) next =
    if less last.mid next.mid then up else (if less next.mid last.mid then down else none_movement)

module _ (get_currency_pair : String → Result CurrencyPair) where
  unfoldable pub map_from_trade_dto : TradeDto → Result Trade
  unfolding map_direction_from_dto map_trade_status_from_dto
  map_from_trade_dto dto = do
    direction ← map_direction_from_dto dto.direction
    status ← map_trade_status_from_dto dto.status
    pair ← get_currency_pair dto.currency_pair
    returns (record {
      trade_id = dto.trade_id;
      trader_name = dto.trader_name;
      currency_pair = pair;
      notional = dto.notional;
      dealt_currency = dto.dealt_currency;
      direction = direction;
      spot_rate = dto.spot_rate;
      trade_date = dto.trade_date;
      value_date = dto.value_date;
      status = status;
    })

  unfoldable pub map_trades_from_dto : TradesDto → Result TradesUpdate
  unfolding traverse map_from_trade_dto
  map_trades_from_dto dto = do
    trades ← traverse map_from_trade_dto dto.trades
    returns (record {
      is_state_of_the_world = dto.is_state_of_the_world;
      is_stale = dto.is_stale;
      trades = trades;
    })

  unfoldable pub map_from_spot_price_dto : Option PriceDto → PriceDto → Result SpotPrice
  unfolding get_price_movement_type
  map_from_spot_price_dto last next = do
    pair ← get_currency_pair next.symbol
    bid ← new_rate next.bid pair.rate_precision pair.pips_position
    ask ← new_rate next.ask pair.rate_precision pair.pips_position
    mid ← new_rate next.mid pair.rate_precision pair.pips_position
    spread ← new_spread next.bid next.ask pair.rate_precision pair.pips_position
    returns (record {
      symbol = next.symbol;
      rate_precision = pair.rate_precision;
      bid = bid;
      ask = ask;
      mid = mid;
      value_date = next.value_date;
      creation_timestamp = next.creation_timestamp;
      price_movement_type = get_price_movement_type last next;
      spread = spread;
      is_tradable = true;
    })

  unfoldable pub map_position_from_dto : PositionDto → Result CurrencyPairPosition
  map_position_from_dto dto = do
    pair ← get_currency_pair dto.symbol
    returns (record {
      symbol = dto.symbol;
      base_pnl = dto.base_pnl;
      base_traded_amount = dto.base_traded_amount;
      currency_pair = pair;
    })

  unfoldable pub map_positions_from_dto : PositionsDto → Result PositionUpdates
  unfolding traverse map_position_from_dto
  map_positions_from_dto dto = do
    positions ← traverse map_position_from_dto dto.current_positions
    returns (record { current_positions = positions; history = dto.history })

pub record SpotPriceDto : Type 0 where
  pub bid : Decimal
  pub ask : Decimal
  pub symbol : String
  pub rate_precision : ℕ

-- `PriceMapper.mapToSpotPriceDto`
unfoldable pub map_to_spot_price_dto : SpotPrice → SpotPriceDto
map_to_spot_price_dto p = record {
  bid = p.bid.raw_rate;
  ask = p.ask.raw_rate;
  symbol = p.symbol;
  rate_precision = p.rate_precision;
}

-- `PositionsMapper.mapToDto`
unfoldable pub map_to_position_dto : CurrencyPairPosition → PositionDto
map_to_position_dto p = record {
  symbol = p.symbol;
  base_pnl = p.base_pnl;
  base_traded_amount = p.base_traded_amount;
}
