-- ===== src/Ui/SpotTile/Loader.antt =====
-- src/client/src/ui/spotTile/spotTileLoader.js, with the model that spotTileFactory.js creates. The
-- router is told of a tile by the id of its model.
pub mod Tiles
mod Tests
use reactive_trader_cloud.Common.{
  String, Bool, true, false, not, ◌&&◌, List, [], ◌∷◌, ◌++◌, if◌then◌else◌, Option, none, some,
  ◌<>◌,
}
use reactive_trader_cloud.Common.Dict.{Dict, lookup, has_key, insert, remove}
use reactive_trader_cloud.Services.Models.{added, removed, CurrencyPair, CurrencyPairUpdate}
use reactive_trader_cloud.Ui.SpotTile.{SpotTileModel, new}

-- A model with its id.
pub record Tile : Type 0 where
  pub model_id : String
  pub model : SpotTileModel

pub data RouterEvent : Type 0 where
  init tile_closed : String → RouterEvent

-- `SpotTileFactory.createTileModel`
unfoldable pub create_tile_model : CurrencyPair → Tile
unfolding new
create_tile_model pair = record { model_id = "spotTile-" <> pair.symbol; model = new pair }

-- One round of `_processCurrencyPairUpdate`, on the tiles by the symbol of their pair.
unfoldable pub process_update : CurrencyPairUpdate → Dict Tile → Dict Tile × List RouterEvent
unfolding create_tile_model lookup has_key insert remove
process_update u tiles =
    let symbol = u.currency_pair.symbol in
    elim u.update_type [
      | added ↦ if has_key symbol tiles then (tiles, []) else (
        insert symbol (create_tile_model u.currency_pair) tiles,
        init (create_tile_model u.currency_pair).model_id ∷ [],
      )
      | removed ↦ elim (lookup symbol tiles) [
        | none ↦ (tiles, [])
        | some tile ↦ (remove symbol tiles, tile_closed tile.model_id ∷ [])
      ]
    ]

unfoldable pub process_updates : List CurrencyPairUpdate → Dict Tile → Dict Tile × List RouterEvent
unfolding process_update
process_updates [] tiles = (tiles, [])
process_updates (u ∷ us) tiles =
    let (tiles', now) = process_update u tiles in
    let (tiles'', later) = process_updates us tiles' in (tiles'', now ++ later)
