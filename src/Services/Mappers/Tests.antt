-- ===== src/Services/Mappers/Tests.antt =====
-- The mappers at concrete messages.
use reactive_trader_cloud.Common.{
  ℕ, ◌≡◌, ◌↔◌, ◌*◌, ◌+◌, ◌<◌, ◌^◌, refl, arith, String, true, false, some,
}
use reactive_trader_cloud.Common.Result.{Result, returns, throws}
use reactive_trader_cloud.Services.Models.Decimals.{Decimal, to_fixed_units}
use reactive_trader_cloud.Services.Models.{
  UpdateType, Direction, TradeStatus, buy, done, up, CurrencyPair, Rate, SpotPrice, Trade,
}
use reactive_trader_cloud.Services.ReferenceData.Tests.{eurusd}
use reactive_trader_cloud.Services.Mappers.Rates.{new_rate, new_spread}
use reactive_trader_cloud.Services.Mappers.Rates.Parts.{new_rate-parts}
use reactive_trader_cloud.Services.Mappers.Names.{mapped_names}
use reactive_trader_cloud.Services.Mappers.Prices.{IsMappedPrice, map_from_spot_price-IsMappedPrice}
use reactive_trader_cloud.Services.Mappers.{
  update_type_name, direction_name, trade_status_name, map_update_type, map_direction_from_dto,
  map_trade_status_from_dto, TradeDto, PriceDto, map_from_trade_dto, map_from_spot_price_dto,
  new_currency_pair,
}

abbrev decimal : ℕ → ℕ → Decimal
decimal m s = record { mantissa = m; scale = s }

abbrev pub pairs : String → Result CurrencyPair
pairs s = returns eurusd

eurusd_parts : new_currency_pair "EURUSD" 5 4 ≡ eurusd
unfolding new_currency_pair
eurusd_parts = refl

abbrev rate : Rate
rate = record {
  raw_rate = decimal 107451 5;
  big_figure = decimal 107 2;
  pips = 45;
  pip_fraction = 1;
}

rate_parts : new_rate (decimal 107451 5) 5 4 ≡ returns rate
unfolding new_rate
rate_parts = refl

yen_parts :
    new_rate (decimal 183794 3) 3 2
    ≡ returns (record {
      raw_rate = decimal 183794 3;
      big_figure = decimal 183 0;
      pips = 79;
      pip_fraction = 4;
    })
unfolding new_rate
yen_parts = refl

rate-too_many_digits :
    new_rate (decimal 107451 5) 21 20 ≡ throws "toFixed() digits argument must be between 0 and 20"
unfolding new_rate
rate-too_many_digits = refl

rate-exponent :
    new_rate (decimal (10 ^ 21) 0) 5 4 ≡ throws "Cannot read property 'substring' of undefined"
unfolding new_rate
rate-exponent = refl

abbrev pub trade_dto : TradeDto
trade_dto = record {
  trade_id = 7;
  trader_name = "TOM";
  currency_pair = "EURUSD";
  notional = 1000000;
  dealt_currency = "EUR";
  direction = "Buy";
  spot_rate = decimal 107451 5;
  trade_date = "2016-03-01";
  value_date = "2016-03-03";
  status = "Done";
}

abbrev pub trade : Trade
trade = record {
  trade_id = 7;
  trader_name = "TOM";
  currency_pair = eurusd;
  notional = 1000000;
  dealt_currency = "EUR";
  direction = buy;
  spot_rate = decimal 107451 5;
  trade_date = "2016-03-01";
  value_date = "2016-03-03";
  status = done;
}

trade_mapped : map_from_trade_dto pairs trade_dto ≡ returns trade
unfolding map_from_trade_dto
trade_mapped = refl

abbrev pub price_dto : ℕ → PriceDto
price_dto mid = record {
  symbol = "EURUSD";
  bid = decimal 107451 5;
  ask = decimal 107451 5;
  mid = decimal mid 5;
  value_date = "SP";
  creation_timestamp = 12;
}

abbrev pub spot_price : SpotPrice
spot_price = record {
  symbol = "EURUSD";
  rate_precision = 5;
  bid = rate;
  ask = rate;
  mid = rate;
  value_date = "SP";
  creation_timestamp = 12;
  price_movement_type = up;
  spread = record {
    value = record { is_negative = false; units = 0; precision = 1 };
    formatted_value = record { is_negative = false; units = 0; precision = 1 };
  };
  is_tradable = true;
}

price_mapped :
    map_from_spot_price_dto pairs (some (price_dto 107450)) (price_dto 107451) ≡ returns spot_price
unfolding map_from_spot_price_dto new_rate new_spread
price_mapped = refl

mapped_names_example :
    ((t : UpdateType) → (map_update_type "Done" ≡ returns t) ↔ ("Done" ≡ update_type_name t))
    × ((d : Direction) → (map_direction_from_dto "Done" ≡ returns d) ↔ ("Done" ≡ direction_name d))
    × ((t : TradeStatus)
        → (map_trade_status_from_dto "Done" ≡ returns t) ↔ ("Done" ≡ trade_status_name t))
mapped_names_example = mapped_names "Done"

map_from_spot_price-IsMappedPrice_example :
    IsMappedPrice pairs (some (price_dto 107450)) (price_dto 107451) spot_price
map_from_spot_price-IsMappedPrice_example =
    map_from_spot_price-IsMappedPrice pairs (some (price_dto 107450)) (price_dto 107451) spot_price
      price_mapped

new_rate-parts_example :
    (r : Rate) × (new_rate (decimal 107451 5) 5 4 ≡ returns r)
    × (r.big_figure.scale + 2 ≡ 4)
    × (r.pips < 100)
    × (r.pip_fraction < 10)
    × (r.big_figure.mantissa * 1000 + r.pips * 10 + r.pip_fraction
        ≡ to_fixed_units (decimal 107451 5) 5)
new_rate-parts_example = new_rate-parts (decimal 107451 5) 2 (omega arith) (omega arith)
