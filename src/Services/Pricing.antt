-- ===== src/Services/Pricing.antt =====
-- `getSpotPriceStream` of src/client/src/services/pricingService.js, from the subscription on. The
-- stream that is retried for ever gives items, and calls back with each error that it retries.
pub mod Prices
mod Tests
use reactive_trader_cloud.Common.{
  String, Bool, true, false, Option, none, some, List, [], ◌∷◌, ◌++◌,
}
use reactive_trader_cloud.Common.Result.{Result, returns, throws}
use reactive_trader_cloud.Services.Models.{CurrencyPair, SpotPrice}
use reactive_trader_cloud.Services.Mappers.{PriceDto, map_from_spot_price_dto}

pub data Event : Type 0 where
  next : PriceDto → Event
  retried_error completed : Event

pub data Output : Type 0 where
  price : SpotPrice → Output
  failed : String → Output
  finished : Output

-- `lastPrice`, the `nextPriceDto` of the scan's tuple, and whether the observer has been stopped.
pub record Subscription : Type 0 where
  pub last_price : Option SpotPrice
  pub next_price_dto : Option PriceDto
  pub is_stopped : Bool

unfoldable pub subscribed : Subscription
subscribed = record { last_price = none; next_price_dto = none; is_stopped = false }

unfoldable pub stale_price : SpotPrice → SpotPrice
stale_price last = record {
  symbol = last.symbol;
  rate_precision = last.rate_precision;
  bid = last.bid;
  ask = last.ask;
  mid = last.mid;
  value_date = last.value_date;
  creation_timestamp = last.creation_timestamp;
  price_movement_type = last.price_movement_type;
  spread = last.spread;
  is_tradable = false;
}

-- The callback of the retry; the policy is an object, which counts as true.
unfoldable pub on_retried_error : Subscription → Subscription × List Output
unfolding stale_price
on_retried_error s = elim s.last_price [
  | none ↦ (s, [])
  | some last ↦ (s, price (stale_price last) ∷ [])
]

module _ (get_currency_pair : String → Result CurrencyPair) where
  -- A mapper that throws ends the stream with its error.
  unfoldable pub on_next : PriceDto → Subscription → Subscription × List Output
  on_next dto s = elim (map_from_spot_price_dto get_currency_pair s.next_price_dto dto) [
    | returns p ↦ (record s { last_price = some p; next_price_dto = some dto }, price p ∷ [])
    | throws message ↦ (record s { is_stopped = true }, failed message ∷ [])
  ]

  unfoldable pub step : Event → Subscription → Subscription × List Output
  unfolding on_next on_retried_error
  step (next dto) s = on_next dto s
  step retried_error s = on_retried_error s
  step completed s = (record s { is_stopped = true }, finished ∷ [])

  unfoldable pub run : Subscription → List Event → List Output
  unfolding step
  run s [] = []
  run s (event ∷ events) =
      let (s', now) = step event s in
      elim s'.is_stopped [ true ↦ now | false ↦ now ++ run s' events ]
