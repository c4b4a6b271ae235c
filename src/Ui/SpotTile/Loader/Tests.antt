-- ===== src/Ui/SpotTile/Loader/Tests.antt =====
-- The loader of the tiles at concrete updates.
use reactive_trader_cloud.Common.{◌≡◌, refl, none, some, List, [], ◌∷◌}
use reactive_trader_cloud.Common.Dict.{lookup}
use reactive_trader_cloud.Services.Models.{
  added, removed, UpdateType, CurrencyPair, CurrencyPairUpdate,
}
use reactive_trader_cloud.Services.ReferenceData.Tests.{eurusd, usdjpy}
use reactive_trader_cloud.Ui.SpotTile.Loader.{init, tile_closed, create_tile_model, process_updates}
use reactive_trader_cloud.Ui.SpotTile.Loader.Tiles.{tile_of, lookup-process_updates}

abbrev change : UpdateType → CurrencyPair → CurrencyPairUpdate
change t p = record { update_type = t; currency_pair = p }

abbrev updates : List CurrencyPairUpdate
updates =
    change added eurusd
    ∷ change added usdjpy
    ∷ change added eurusd
    ∷ change removed eurusd
    ∷ change removed eurusd
    ∷ []

told :
    (process_updates updates []).1
    ≡ init "spotTile-EURUSD" ∷ init "spotTile-USDJPY" ∷ tile_closed "spotTile-EURUSD" ∷ []
unfolding process_updates create_tile_model
told = refl

lookup-process_updates_example :
    lookup "USDJPY" (process_updates updates []).0 ≡ tile_of "USDJPY" updates none
unfolding lookup
lookup-process_updates_example = lookup-process_updates updates [] "USDJPY"

tile_of-updates : tile_of "USDJPY" updates none ≡ some (create_tile_model usdjpy)
tile_of-updates = refl
