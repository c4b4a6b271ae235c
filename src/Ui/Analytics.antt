-- ===== src/Ui/Analytics.antt =====
-- src/client/src/ui/analytics/model: pnlChartModel.js and positionsChartModel.js. The format of a
-- profit, `toFixed(2)`, is a parameter.
pub mod Bounds
pub mod Positions
pub mod Bubbles
pub mod Bars
pub mod Model
mod Tests
use reactive_trader_cloud.Common.{
  String, Bool, true, false, Option, none, some, List, [], ◌∷◌, ◌===◌, if◌then◌else◌,
}
use reactive_trader_cloud.Common.Int.{ℤ, pos, min_ℤ, max_ℤ}
use reactive_trader_cloud.Services.Models.{HistoricPosition, CurrencyPairPosition}

pub record PricePoint : Type 0 where
  pub x : String
  pub y : String

pub record PnlChartModel : Type 0 where
  pub last_pos : Option String
  pub min_pnl : ℤ
  pub max_pnl : ℤ
  pub series_data : List PricePoint

module _ (to_fixed : ℤ → String) where
  -- The loop of `_processUpdate`, from the values that its variables have; a profit that is missing
  -- is filtered out.
  unfoldable pub process : Option String → ℤ → ℤ → List HistoricPosition → PnlChartModel
  unfolding min_ℤ max_ℤ
  process last_pos min_pnl max_pnl [] = record {
    last_pos = last_pos;
    min_pnl = min_pnl;
    max_pnl = max_pnl;
    series_data = [];
  }
  process last_pos min_pnl max_pnl (item ∷ items) = elim item.usd_pnl [
    | none ↦ process last_pos min_pnl max_pnl items
    | some pnl ↦
        let rest = process (some (to_fixed pnl)) (min_ℤ min_pnl pnl) (max_ℤ max_pnl pnl) items in
        record rest {
          series_data = record { x = item.timestamp; y = to_fixed pnl } ∷ rest.series_data;
        }
  ]

  -- `update`; positions that are missing are none.
  unfoldable pub update : Option (List HistoricPosition) → PnlChartModel
  unfolding process
  update none = process none (pos 0) (pos 0) []
  update (some positions) = process none (pos 0) (pos 0) positions

pub record PositionsChartModel : Type 0 where
  pub series_data : List CurrencyPairPosition
  pub y_axis_value_property_name : String

abbrev pub base_pnl_name : String
base_pnl_name = "basePnl"

abbrev pub base_traded_amount_name : String
base_traded_amount_name = "baseTradedAmount"

unfoldable pub base_pnl_display_model_selected : PositionsChartModel → Bool
base_pnl_display_model_selected m = m.y_axis_value_property_name === base_pnl_name

unfoldable pub toggle_pnl_display_mode : PositionsChartModel → PositionsChartModel
toggle_pnl_display_mode m = record m {
  y_axis_value_property_name =
      if m.y_axis_value_property_name === base_pnl_name
      then base_traded_amount_name
      else base_pnl_name;
}
