-- ===== src/Ui/SpotTile/Availability.antt =====
-- The notification that pricing is unavailable.
use reactive_trader_cloud.Common.{
  ◌≡◌, refl, Bool, true, false, not, ◌&&◌, Option, none, some, List, ◌∷◌, arith, ◌===◌,
}
use reactive_trader_cloud.Common.Result.{returns}
use reactive_trader_cloud.Services.Models.{Direction, SpotPrice}
use reactive_trader_cloud.Ui.SpotTile.{
  Formats, Notification, text, trade_execution, tile_closed, pop_out_tile, undock_tile,
  display_currency_chart, chart_settled, trade_notification_dismissed, price_silent,
  execution_error, notional_changed, execute_trade, close_position, execution_next, price_next,
  SpotTileModel, Event, Effect, step, run, pricing_down_status, on_execute_trade, on_close_position,
  on_execution_next, on_trade_response, on_execution_error, on_price_next, on_price_silent,
  on_statuses, create_trade_request, statuses,
}
use reactive_trader_cloud.Ui.SpotTile.Runs.{run-cons, run_inv}

-- With no notification, prices are available; with a text, it says that they are not, and so it is.
abbrev pub is_fitting : Bool → Bool → Option Notification → Bool
is_fitting connected stale none = connected && not stale
is_fitting connected stale (some (text message)) =
    message === "Pricing is unavailable" && not (connected && not stale)
is_fitting connected stale (some (trade_execution n)) = true

abbrev pub is_fit : SpotTileModel → Bool
is_fit m = is_fitting m.pricing_connected m.price_stale m.notification

updated-is_fitting :
    (connected stale : Bool) (n : Option Notification)
    → is_fitting connected stale (pricing_down_status connected stale n) ≡ true
unfolding pricing_down_status
updated-is_fitting true true none = refl
updated-is_fitting true false none = refl
updated-is_fitting false stale none = refl
updated-is_fitting true true (some (text s)) = refl
updated-is_fitting true false (some (text s)) = refl
updated-is_fitting false stale (some (text s)) = refl
updated-is_fitting connected stale (some (trade_execution t)) = refl

execute-is_fit :
    (d : Direction) (m : SpotTileModel) (n : SpotTileModel) (now : List Effect)
    → on_execute_trade d m ≡ returns (n, now)
    → is_fit m ≡ true
    → is_fit n ≡ true
unfolding on_execute_trade create_trade_request
execute-is_fit d m n now h f = ground arith

price-is_fit :
    (p : SpotPrice) (m : SpotTileModel) → is_fit m ≡ true → is_fit (on_price_next p m).0 ≡ true
unfolding on_price_next
price-is_fit p m f = ground (arith, updated-is_fitting m.pricing_connected false m.notification)

module _ (formats : Formats) where
  step-is_fit :
      (event : Event) (m : SpotTileModel) (n : SpotTileModel) (now : List Effect)
      → step formats event m ≡ returns (n, now)
      → is_fit m ≡ true
      → is_fit n ≡ true
  unfolding step on_execute_trade on_close_position on_execution_next on_trade_response
      on_execution_error on_price_silent on_statuses create_trade_request
  step-is_fit tile_closed m n now h f = ground arith
  step-is_fit pop_out_tile m n now h f = ground arith
  step-is_fit undock_tile m n now h f = ground arith
  step-is_fit display_currency_chart m n now h f = ground arith
  step-is_fit chart_settled m n now h f = ground arith
  step-is_fit trade_notification_dismissed m n now h f =
      ground (arith, updated-is_fitting m.pricing_connected m.price_stale none)
  step-is_fit price_silent m n now h f =
      ground (arith, updated-is_fitting m.pricing_connected true m.notification)
  step-is_fit execution_error m n now h f = ground arith
  step-is_fit (notional_changed notional) m n now h f = ground arith
  step-is_fit (execute_trade d) m n now h f = execute-is_fit d m n now h f
  step-is_fit (close_position s a u c) m n now h f = ground arith
  step-is_fit (execution_next r) m n now h f = ground arith
  step-is_fit (price_next p) m n now h f = ground (arith, price-is_fit p m f)
  step-is_fit (statuses p e) m n now h f =
      ground (arith, updated-is_fitting p m.price_stale m.notification)

  -- After the service statuses have arrived and any further events that are handled without an
  -- error: if there is no notification, pricing is connected and the price is not stale; if there
  -- is a text, it says that pricing is unavailable, and pricing is not connected or the price is
  -- stale.
  pub run-is_fit :
      (pricing execution : Bool) (events : List Event) (m : SpotTileModel) (m' : SpotTileModel)
      (effects : List Effect)
      → run formats m (statuses pricing execution ∷ events) ≡ returns (m', effects)
      → is_fit m' ≡ true
  unfolding step on_statuses
  run-is_fit pricing execution events m m' effects h =
      let (n, now, later, e, f, g) =
        run-cons formats (statuses pricing execution) events m m' effects h in
      run_inv formats (λ k. is_fit k ≡ true) step-is_fit events n m' later f
        (ground (arith, updated-is_fitting pricing m.price_stale m.notification))
