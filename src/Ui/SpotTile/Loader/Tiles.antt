-- ===== src/Ui/SpotTile/Loader/Tiles.antt =====
-- Which tiles there are.
use reactive_trader_cloud.Common.{
  ◌≡◌, refl, ap, ◌∙◌, String, Option, none, some, List, [], ◌∷◌, if◌then◌else◌, ◌===◌, arith,
  eq_iff,
}
use reactive_trader_cloud.Common.Dict.{Dict, lookup, lookup-insert, lookup-remove, has_key-lookup}
use reactive_trader_cloud.Services.Models.{added, removed, CurrencyPairUpdate}
use reactive_trader_cloud.Ui.SpotTile.Loader.{
  Tile, create_tile_model, process_update, process_updates,
}

-- The tile of a symbol after one update about it.
abbrev pub tile_after : CurrencyPairUpdate → Option Tile → Option Tile
tile_after u before = elim u.update_type [
  | added ↦ elim before [ none ↦ some (create_tile_model u.currency_pair) | some tile ↦ some tile ]
  | removed ↦ none
]

-- The tile of a symbol after all updates, of which those about it count.
abbrev pub tile_of : String → List CurrencyPairUpdate → Option Tile → Option Tile
tile_of k [] before = before
tile_of k (u ∷ us) before =
    tile_of k us (if u.currency_pair.symbol === k then tile_after u before else before)

lookup-process_update :
    (k : String) (u : CurrencyPairUpdate) (tiles : Dict Tile)
    → lookup k (process_update u tiles).0
      ≡ (if u.currency_pair.symbol === k then tile_after u (lookup k tiles) else lookup k tiles)
unfolding process_update
lookup-process_update k u tiles = ground (
  arith,
  eq_iff u.currency_pair.symbol k,
  has_key-lookup u.currency_pair.symbol tiles,
  lookup-insert k u.currency_pair.symbol (create_tile_model u.currency_pair) tiles,
  lookup-remove k u.currency_pair.symbol tiles,
)

-- After any updates the tile of a symbol is the one that the first addition since the last
-- removal created, or the one there was before if it was never removed, and there is none if the
-- last update about the symbol removed it.
pub lookup-process_updates :
    (us : List CurrencyPairUpdate) (tiles : Dict Tile) (k : String)
    → lookup k (process_updates us tiles).0 ≡ tile_of k us (lookup k tiles)
unfolding process_updates
lookup-process_updates [] tiles k = refl
lookup-process_updates (u ∷ us) tiles k =
    lookup-process_updates us (process_update u tiles).0 k
    ∙ ap (tile_of k us) (lookup-process_update k u tiles)
