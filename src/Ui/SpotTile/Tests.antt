-- ===== src/Ui/SpotTile/Tests.antt =====
-- The spot tile's model at concrete events.
use reactive_trader_cloud.Common.{◌+◌, ◌≤◌, ◌≡◌, refl, true, false, some, List, [], ◌∷◌, is_some}
use reactive_trader_cloud.Common.Int.{pos}
use reactive_trader_cloud.Common.Result.{Result, returns, throws}
use reactive_trader_cloud.Services.Models.{buy, sell, ExecuteTradeResponse}
use reactive_trader_cloud.Services.ReferenceData.Tests.{eurusd}
use reactive_trader_cloud.Services.Mappers.Tests.{trade, spot_price}
use reactive_trader_cloud.Ui.SpotTile.{
  Formats, Event, Effect, SpotTileModel, new, run, statuses, price_next, price_silent,
  execute_trade, execution_next, close_position, trade_notification_dismissed, text,
  pricing_down_status,
}
use reactive_trader_cloud.Ui.SpotTile.Availability.{is_fit, run-is_fit}
use reactive_trader_cloud.Ui.SpotTile.InFlight.{count_flag, sent, outcomes, sent-run, run-frozen}
use reactive_trader_cloud.Ui.SpotTile.Returns.{run-returns}

abbrev plain : Formats
plain = record { format_notional = λ n. "1,000,000"; format_date = λ d. d }

abbrev model_of : Result (SpotTileModel × List Effect) → SpotTileModel
model_of (returns r) = r.0
model_of (throws e) = new eurusd

abbrev effects_of : Result (SpotTileModel × List Effect) → List Effect
effects_of (returns r) = r.1
effects_of (throws e) = []

abbrev answer : ExecuteTradeResponse
answer = record { trade = some trade; error = ""; has_error = false }

abbrev opening : List Event
opening = statuses true true ∷ price_next spot_price ∷ []

abbrev ready : SpotTileModel
ready = model_of (run plain (new eurusd) opening)

abbrev trading_tile : SpotTileModel
trading_tile = model_of (run plain ready (execute_trade buy ∷ []))

abbrev day : List Event
day = execute_trade buy ∷ execute_trade sell ∷ execution_next answer ∷ execute_trade sell ∷ []

abbrev silence : List Event
silence = price_silent ∷ trade_notification_dismissed ∷ []

abbrev waiting : List Event
waiting = price_next spot_price ∷ execute_trade sell ∷ []

abbrev closing_day : List Event
closing_day =
    close_position "EURUSD" (pos 5) "uuid" "1" ∷ execution_next answer ∷ execute_trade buy ∷ []

-- Executing before the first price throws.
no_price :
    run plain (new eurusd) (statuses true true ∷ execute_trade buy ∷ [])
    ≡ throws "Cannot read property 'ask' of null"
unfolding run new
no_price = refl

two_requests : sent (effects_of (run plain ready day)) ≡ 2
unfolding run new
two_requests = refl

nothing_after_close : sent (effects_of (run plain trading_tile closing_day)) ≡ 1
unfolding run new
nothing_after_close = refl

unavailable :
    (model_of (run plain ready silence)).notification ≡ some (text "Pricing is unavailable")
unfolding run new pricing_down_status
unavailable = refl

run-is_fit_example :
    is_fit (model_of (run plain (new eurusd) (statuses true true ∷ silence))) ≡ true
unfolding run new
run-is_fit_example =
    run-is_fit plain true true silence (new eurusd)
      (model_of (run plain (new eurusd) (statuses true true ∷ silence)))
      (effects_of (run plain (new eurusd) (statuses true true ∷ silence))) refl

sent-run_example :
    sent (effects_of (run plain ready day)) + count_flag ready.is_trade_execution_in_flight
    ≤ outcomes day + count_flag (model_of (run plain ready day)).is_trade_execution_in_flight
unfolding run new
sent-run_example =
    sent-run plain day ready (model_of (run plain ready day)) (effects_of (run plain ready day))
      refl

run-frozen_example :
    let m = model_of (run plain trading_tile waiting) in
    (m.is_trade_execution_in_flight ≡ true)
    × (m.current_spot_price ≡ trading_tile.current_spot_price)
unfolding run new
run-frozen_example =
    run-frozen plain waiting trading_tile (model_of (run plain trading_tile waiting))
      (effects_of (run plain trading_tile waiting)) refl (refl, (refl, tt)) refl

run-returns_example :
    (m : SpotTileModel) × (effects : List Effect) × (run plain ready day ≡ returns (m, effects))
    × (is_some m.current_spot_price ≡ true)
unfolding run new
run-returns_example = run-returns plain day ready (refl, (refl, (refl, (refl, tt)))) refl
