-- ===== src/Ui/Analytics/Tests.antt =====
-- The charts at concrete positions.
use reactive_trader_cloud.Common.{◌≡◌, refl, String, true, Option, none, some, List, [], ◌∷◌, map}
use reactive_trader_cloud.Common.Int.{ℤ, pos, negsuc, min_ℤ}
use reactive_trader_cloud.Services.Models.{HistoricPosition}
use reactive_trader_cloud.Ui.Analytics.{
  PnlChartModel, PositionsChartModel, update, base_traded_amount_name,
  base_pnl_display_model_selected, toggle_pnl_display_mode,
}
use reactive_trader_cloud.Ui.Analytics.Bounds.{IsBounded, profits, last_of, update-IsBounded}

abbrev two_digits : ℤ → String
two_digits p = elim p [ pos n ↦ "gain" | negsuc n ↦ "loss" ]

abbrev at : String → Option ℤ → HistoricPosition
at t p = record { timestamp = t; usd_pnl = p }

abbrev positions : List HistoricPosition
positions = at "1" (some (pos 5)) ∷ at "2" none ∷ at "3" (some (negsuc 2)) ∷ []

abbrev chart : PnlChartModel
chart = update two_digits (some positions)

lowest : chart.min_pnl ≡ negsuc 2
unfolding update min_ℤ
lowest = refl

last_shown : chart.last_pos ≡ some "loss"
unfolding update
last_shown = refl

-- The chart of positions starts with the traded amounts, and goes back and forth.
abbrev amounts : PositionsChartModel
amounts = record { series_data = []; y_axis_value_property_name = base_traded_amount_name }

toggled_once : base_pnl_display_model_selected (toggle_pnl_display_mode amounts) ≡ true
unfolding base_pnl_display_model_selected toggle_pnl_display_mode
toggled_once = refl

toggled_twice : toggle_pnl_display_mode (toggle_pnl_display_mode amounts) ≡ amounts
unfolding toggle_pnl_display_mode
toggled_twice = refl

update-IsBounded_example :
    IsBounded (pos 0) (pos 0) (profits positions) chart
    × (map (λ p. p.y) chart.series_data ≡ map two_digits (profits positions))
    × (chart.last_pos ≡ last_of none (map (λ p. p.y) chart.series_data))
update-IsBounded_example = update-IsBounded two_digits positions
