-- ===== src/Ui/SpotTile/View/Tests.antt =====
-- A tile rendered and clicked.
use reactive_trader_cloud.Common.{◌≡◌, ◌⊎◌, refl, true, false, List, [], ◌∷◌}
use reactive_trader_cloud.Common.Result.{Result, returns, throws}
use reactive_trader_cloud.Services.Models.{buy}
use reactive_trader_cloud.Services.ReferenceData.Tests.{eurusd}
use reactive_trader_cloud.Services.Mappers.Tests.{spot_price}
use reactive_trader_cloud.Ui.SpotTile.{
  Formats, SpotTileModel, Event, Effect, new, run, statuses, price_next, price_silent,
  publish_price, pricing_down_status,
}
use reactive_trader_cloud.Ui.SpotTile.View.{
  TileView, tile_view, on_execute_trade_clicked, tile_class_name,
}
use reactive_trader_cloud.Ui.SpotTile.View.Clicks.{shows_prices, clicked-tile_view}

abbrev plain : Formats
plain = record { format_notional = λ n. "1,000,000"; format_date = λ d. d }

abbrev opening : List Event
opening = statuses true true ∷ price_next spot_price ∷ []

abbrev model_of : Result (SpotTileModel × List Effect) → SpotTileModel
model_of (returns r) = r.0
model_of (throws e) = new eurusd

abbrev ready : SpotTileModel
ready = model_of (run plain (new eurusd) opening)

stale :
    tile_class_name (model_of (run plain ready (price_silent ∷ [])))
    ≡ "spot-tile" ∷ "spot-tile--stale" ∷ []
unfolding tile_class_name run new pricing_down_status
stale = refl

clicked-tile_view_example :
    (v : TileView) × (tile_view (λ n. "51") ready ≡ returns v)
    × ((shows_prices v.content ≡ false)
        ⊎ ((n : SpotTileModel) × (now : List Effect) × (run plain ready
                (on_execute_trade_clicked buy ready)
              ≡ returns (n, now))))
unfolding run new pricing_down_status
clicked-tile_view_example =
    clicked-tile_view plain (λ n. "51") eurusd opening ready (publish_price spot_price ∷ []) buy
      refl
