-- ===== src/Services/Pricing/Tests.antt =====
-- The stream of prices at concrete events.
use reactive_trader_cloud.Common.{◌≡◌, refl, false, List, [], ◌∷◌, ◌===◌, if◌then◌else◌, String}
use reactive_trader_cloud.Common.Result.{Result, returns, throws}
use reactive_trader_cloud.Services.Models.{CurrencyPair, SpotPrice, none_movement}
use reactive_trader_cloud.Services.ReferenceData.Tests.{eurusd}
use reactive_trader_cloud.Services.Mappers.Tests.{price_dto, spot_price}
use reactive_trader_cloud.Services.Mappers.Rates.{new_rate, new_spread}
use reactive_trader_cloud.Services.Mappers.{map_from_spot_price_dto}
use reactive_trader_cloud.Services.Pricing.{
  Event, next, retried_error, price, failed, subscribed, run,
}
use reactive_trader_cloud.Services.Pricing.Prices.{account, run-subscribed}

abbrev pairs : String → Result CurrencyPair
pairs s = if s === "EURUSD" then returns eurusd else throws "unknown"

abbrev first_price : SpotPrice
first_price = record spot_price { price_movement_type = none_movement }

abbrev events : List Event
events =
    retried_error
    ∷ next (price_dto 107451)
    ∷ retried_error
    ∷ next (record (price_dto 1) { symbol = "XXXYYY" })
    ∷ retried_error
    ∷ []

abbrev last_price : SpotPrice
last_price = record first_price { is_tradable = false }

outputs : run pairs subscribed events ≡ price first_price ∷ price last_price ∷ failed "unknown" ∷ []
unfolding run subscribed map_from_spot_price_dto new_rate new_spread
outputs = refl

run-subscribed_example : run pairs subscribed events ≡ account pairs [] events
run-subscribed_example = run-subscribed pairs events
