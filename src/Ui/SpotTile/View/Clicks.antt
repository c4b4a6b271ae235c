-- ===== src/Ui/SpotTile/View/Clicks.antt =====
-- A tile that is shown can be rendered, and its buttons can be clicked.
use reactive_trader_cloud.Common.{
  ℕ, ◌≡◌, ◌⊎◌, refl, String, Bool, true, false, ◌||◌, Option, none, some, is_some, List,
  Option-cases, inl, inr, arith,
}
use reactive_trader_cloud.Common.Result.{returns, Result-cases}
use reactive_trader_cloud.Services.Models.{CurrencyPair, Direction, ExecuteTradeResponse, SpotPrice}
use reactive_trader_cloud.Ui.SpotTile.{
  Formats, SpotTileModel, Event, Effect, Notification, text, trade_execution, tile_closed,
  pop_out_tile, undock_tile, display_currency_chart, chart_settled, trade_notification_dismissed,
  price_silent, execution_error, notional_changed, execute_trade, close_position, execution_next,
  price_next, statuses, new, step, run, on_execute_trade, on_close_position, on_price_next,
  on_price_silent, on_statuses, on_execution_next, on_trade_response, on_execution_error,
  create_trade_request, create_for_error, create_for_success, pricing_down_status,
}
use reactive_trader_cloud.Ui.SpotTile.Runs.{run_inv}
use reactive_trader_cloud.Ui.SpotTile.View.{
  TileView, TileContent, tile_class_name, prices, create_price_components, tile_view, content_of,
  trade_notification_view, on_execute_trade_clicked,
}

-- A trade notification has an error or a trade.
abbrev is_renderable : Option Notification → Bool
is_renderable (some (trade_execution n)) = is_some n.error || is_some n.details
is_renderable _ = true

down-is_renderable :
    (connected stale : Bool) (n : Option Notification)
    → is_renderable (pricing_down_status connected stale n) ≡ is_renderable n
unfolding pricing_down_status
down-is_renderable true true none = refl
down-is_renderable true false none = refl
down-is_renderable false stale none = refl
down-is_renderable true true (some (text s)) = refl
down-is_renderable true false (some (text s)) = refl
down-is_renderable false stale (some (text s)) = refl
down-is_renderable connected stale (some (trade_execution t)) = refl

abbrev IsKept : SpotTileModel → SpotTileModel → Type 0
IsKept m n = is_renderable m.notification ≡ true → is_renderable n.notification ≡ true

execute-IsKept :
    (d : Direction) (m : SpotTileModel) (n : SpotTileModel) (now : List Effect)
    → on_execute_trade d m ≡ returns (n, now)
    → IsKept m n
unfolding on_execute_trade create_trade_request
execute-IsKept d m n now h k = ground arith

response-IsKept :
    (formats : Formats) (r : ExecuteTradeResponse) (m : SpotTileModel) (n : SpotTileModel)
    (now : List Effect)
    → on_trade_response formats r m ≡ returns (n, now)
    → IsKept m n
unfolding on_trade_response create_for_success create_for_error
response-IsKept formats r m n now h k = ground arith

price-IsKept : (p : SpotPrice) (m : SpotTileModel) → IsKept m (on_price_next p m).0
unfolding on_price_next
price-IsKept p m k = ground (arith, down-is_renderable m.pricing_connected false m.notification)

module _ (formats : Formats) where
  step-IsKept :
      (event : Event) (m : SpotTileModel) (n : SpotTileModel) (now : List Effect)
      → step formats event m ≡ returns (n, now)
      → IsKept m n
  unfolding step on_close_position on_execution_next on_execution_error on_price_silent on_statuses
      create_trade_request create_for_error
  step-IsKept tile_closed m n now h k = ground arith
  step-IsKept pop_out_tile m n now h k = ground arith
  step-IsKept undock_tile m n now h k = ground arith
  step-IsKept display_currency_chart m n now h k = ground arith
  step-IsKept chart_settled m n now h k = ground arith
  step-IsKept trade_notification_dismissed m n now h k =
      ground (arith, down-is_renderable m.pricing_connected m.price_stale none)
  step-IsKept price_silent m n now h k =
      ground (arith, down-is_renderable m.pricing_connected true m.notification)
  step-IsKept execution_error m n now h k = ground arith
  step-IsKept (notional_changed notional) m n now h k = ground arith
  step-IsKept (execute_trade d) m n now h k = execute-IsKept d m n now h k
  step-IsKept (close_position s a u c) m n now h k = ground arith
  step-IsKept (execution_next r) m n now h k = ground (arith, response-IsKept formats r m n now)
  step-IsKept (price_next p) m n now h k = ground (arith, price-IsKept p m)
  step-IsKept (statuses p e) m n now h k =
      ground (arith, down-is_renderable p m.price_stale m.notification)

renderable-content :
    (decimal : ℕ → String) (m : SpotTileModel)
    → is_renderable m.notification ≡ true
    → (c : TileContent) × (content_of decimal m ≡ returns c)
unfolding content_of trade_notification_view
renderable-content decimal m h = elim (Result-cases (content_of decimal m)) [
  | inl (c, e) ↦ (c, e)
  | inr (x, e) ↦ absurd (ground arith)
]

tile_view-content :
    (decimal : ℕ → String) (m : SpotTileModel) (c : TileContent)
    → content_of decimal m ≡ returns c
    → tile_view decimal m ≡ returns (record { class_name = tile_class_name m; content = c })
unfolding tile_view
tile_view-content decimal m c e = ground arith

abbrev pub shows_prices : TileContent → Bool
shows_prices (prices c) = is_some c
shows_prices _ = false

-- Price buttons are shown only with a price, and then a click is handled.
prices-clicked :
    (formats : Formats) (decimal : ℕ → String) (m : SpotTileModel) (c : TileContent) (d : Direction)
    → content_of decimal m ≡ returns c
    → (shows_prices c ≡ false)
      ⊎ ((n : SpotTileModel) × (now : List Effect) × (run formats m (on_execute_trade_clicked d m)
            ≡ returns (n, now)))
unfolding content_of create_price_components trade_notification_view on_execute_trade_clicked run
    step on_execute_trade create_trade_request
prices-clicked formats decimal m c d h =
    elim (Result-cases (run formats m (on_execute_trade_clicked d m))) [
      | inl ((n, now), e) ↦ inr (n, now, e)
      | inr (x, e) ↦ inl (elim (Option-cases m.current_spot_price) [
        | inl f ↦ ground arith
        | inr (p, f) ↦ absurd (ground arith)
      ])
    ]

-- A new tile after any events that are handled without an error: it can be rendered, and either it shows no
-- price buttons or a click on either of them is handled without an error too.
pub clicked-tile_view :
    (formats : Formats) (decimal : ℕ → String) (pair : CurrencyPair) (events : List Event)
    (m : SpotTileModel) (effects : List Effect) (d : Direction)
    → run formats (new pair) events ≡ returns (m, effects)
    → (v : TileView) × (tile_view decimal m ≡ returns v)
      × ((shows_prices v.content ≡ false)
          ⊎ ((n : SpotTileModel) × (now : List Effect) × (run formats m
                  (on_execute_trade_clicked d m)
                ≡ returns (n, now))))
unfolding new
clicked-tile_view formats decimal pair events m effects d h =
    let kept =
      run_inv formats (λ k. is_renderable k.notification ≡ true) (step-IsKept formats) events
        (new pair) m effects h refl in
    let (c, e) = renderable-content decimal m kept in
    (
      record { class_name = tile_class_name m; content = c },
      tile_view-content decimal m c e,
      prices-clicked formats decimal m c d e,
    )
