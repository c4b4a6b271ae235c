-- ===== src/Services/Mappers/Names.antt =====
-- Which texts of the back end the mappers accept, and what a mapped trade keeps.
use Prim.Native.String.{String}
use reactive_trader_cloud.Common.{◌≡◌, ◌↔◌, refl, arith, eq_iff}
use reactive_trader_cloud.Common.Result.{Result, returns}
use reactive_trader_cloud.Services.Models.{
  UpdateType, added, removed, Direction, buy, sell, TradeStatus, pending, done, rejected,
  CurrencyPair, Trade,
}
use reactive_trader_cloud.Services.Mappers.{
  update_type_name, direction_name, trade_status_name, map_update_type, map_direction_from_dto,
  map_trade_status_from_dto, TradeDto, map_from_trade_dto,
}

pub map_update_type-name : (t : UpdateType) → map_update_type (update_type_name t) ≡ returns t
unfolding map_update_type
map_update_type-name added = refl
map_update_type-name removed = refl

pub map_direction-name : (d : Direction) → map_direction_from_dto (direction_name d) ≡ returns d
unfolding map_direction_from_dto
map_direction-name buy = refl
map_direction-name sell = refl

pub map_trade_status-name :
    (s : TradeStatus) → map_trade_status_from_dto (trade_status_name s) ≡ returns s
unfolding map_trade_status_from_dto
map_trade_status-name pending = refl
map_trade_status-name done = refl
map_trade_status-name rejected = refl

pub name-map_update_type :
    (s : String) (t : UpdateType) → map_update_type s ≡ returns t → s ≡ update_type_name t
unfolding map_update_type
name-map_update_type s added h = ground (arith, eq_iff s "Added", eq_iff s "Removed")
name-map_update_type s removed h = ground (arith, eq_iff s "Added", eq_iff s "Removed")

pub name-map_direction :
    (s : String) (d : Direction) → map_direction_from_dto s ≡ returns d → s ≡ direction_name d
unfolding map_direction_from_dto
name-map_direction s buy h = ground (arith, eq_iff s "Buy", eq_iff s "Sell")
name-map_direction s sell h = ground (arith, eq_iff s "Buy", eq_iff s "Sell")

pub name-map_trade_status :
    (s : String) (t : TradeStatus)
    → map_trade_status_from_dto s ≡ returns t
    → s ≡ trade_status_name t
unfolding map_trade_status_from_dto
name-map_trade_status s pending h =
    ground (arith, eq_iff s "Pending", eq_iff s "Done", eq_iff s "Rejected")
name-map_trade_status s done h =
    ground (arith, eq_iff s "Pending", eq_iff s "Done", eq_iff s "Rejected")
name-map_trade_status s rejected h =
    ground (arith, eq_iff s "Pending", eq_iff s "Done", eq_iff s "Rejected")

-- The three mappings of texts accept exactly the names of the enumerations' values, each as the
-- value of that name; every other text makes them throw.
pub mapped_names :
    (s : String)
    → ((t : UpdateType) → (map_update_type s ≡ returns t) ↔ (s ≡ update_type_name t))
      × ((d : Direction) → (map_direction_from_dto s ≡ returns d) ↔ (s ≡ direction_name d))
      × ((t : TradeStatus) → (map_trade_status_from_dto s ≡ returns t) ↔ (s ≡ trade_status_name t))
mapped_names s = (
  λ t. (name-map_update_type s t, λ e. rw e (map_update_type-name t)),
  λ d. (name-map_direction s d, λ e. rw e (map_direction-name d)),
  λ t. (name-map_trade_status s t, λ e. rw e (map_trade_status-name t)),
)

module _ (get_currency_pair : String → Result CurrencyPair) where
  -- A mapped trade has the direction and the status that the back end names, the currency pair that
  -- the reference data gives for its symbol, and the other fields as they were sent.
  pub record IsMappedTrade (dto : TradeDto) (t : Trade) : Type 0 where
    pub direction : direction_name t.direction ≡ dto.direction
    pub status : trade_status_name t.status ≡ dto.status
    pub currency_pair : get_currency_pair dto.currency_pair ≡ returns t.currency_pair
    pub trade_id : t.trade_id ≡ dto.trade_id
    pub notional : t.notional ≡ dto.notional
    pub spot_rate : t.spot_rate ≡ dto.spot_rate
    pub dealt_currency : t.dealt_currency ≡ dto.dealt_currency

  -- A trade that the mapper returns has the direction and the status that the back end names, the
  -- currency pair that the reference data gives for its symbol, and the trade id, notional, rate
  -- and dealt currency that were sent.
  pub map_from_trade_dto-IsMappedTrade :
      (dto : TradeDto) (t : Trade)
      → map_from_trade_dto get_currency_pair dto ≡ returns t
      → IsMappedTrade dto t
  unfolding map_from_trade_dto
  map_from_trade_dto-IsMappedTrade dto t h = ground (
    arith,
    eq_iff dto.direction "Buy",
    eq_iff dto.direction "Sell",
    eq_iff dto.status "Pending",
    eq_iff dto.status "Done",
    eq_iff dto.status "Rejected",
  )
