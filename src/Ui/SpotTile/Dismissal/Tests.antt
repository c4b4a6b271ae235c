-- ===== src/Ui/SpotTile/Dismissal/Tests.antt =====
-- A tile and its timer at concrete events.
use reactive_trader_cloud.Common.{◌≡◌, refl, true, false, some, none, List, [], ◌∷◌}
use reactive_trader_cloud.Common.Result.{Result, returns, throws}
use reactive_trader_cloud.Services.Models.{buy, done, ExecuteTradeResponse}
use reactive_trader_cloud.Services.ReferenceData.Tests.{eurusd}
use reactive_trader_cloud.Services.Mappers.Tests.{trade, spot_price}
use reactive_trader_cloud.Ui.SpotTile.{
  Formats, Effect, new, statuses, price_next, execute_trade, execution_next, execution_error,
  trade_notification_dismissed, pricing_down_status,
}
use reactive_trader_cloud.Ui.SpotTile.Dismissal.{
  TimedTile, TimedEvent, tile, elapsed, timed_run, is_done_shown, is_timed, timed_run-is_timed,
}

abbrev plain : Formats
plain = record { format_notional = λ n. "1,000,000"; format_date = λ d. d }

abbrev answer : ExecuteTradeResponse
answer = record { trade = some (record trade { status = done }); error = ""; has_error = false }

abbrev fresh : TimedTile
fresh = record { model = new eurusd; is_timing = false }

abbrev traded : List TimedEvent
traded =
    tile (statuses true true)
    ∷ tile (price_next spot_price)
    ∷ tile (execute_trade buy)
    ∷ tile (execution_next answer)
    ∷ []

abbrev after : Result (TimedTile × List Effect) → TimedTile
after (returns r) = r.0
after (throws e) = fresh

abbrev effects_of : Result (TimedTile × List Effect) → List Effect
effects_of (returns r) = r.1
effects_of (throws e) = []

abbrev shown : TimedTile
shown = after (timed_run plain fresh traded)

shows_done : is_done_shown shown.model.notification ≡ true
unfolding timed_run new
shows_done = refl

dismissed : (after (timed_run plain shown (elapsed ∷ []))).model.notification ≡ none
unfolding timed_run new pricing_down_status
dismissed = refl

-- The timer of a trade whose notification was dismissed by hand dismisses the error of the next one.
dismissed_early :
    (after (
      timed_run plain shown (
        tile trade_notification_dismissed
        ∷ tile (execute_trade buy)
        ∷ tile execution_error
        ∷ elapsed
        ∷ []))).model.notification
    ≡ none
unfolding timed_run new pricing_down_status
dismissed_early = refl

fresh-is_timed : is_timed fresh ≡ true
unfolding new
fresh-is_timed = refl

timed_run-is_timed_example : is_timed shown ≡ true
unfolding timed_run new
timed_run-is_timed_example =
    timed_run-is_timed plain traded fresh shown (effects_of (timed_run plain fresh traded)) refl
      fresh-is_timed
