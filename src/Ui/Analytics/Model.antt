-- ===== src/Ui/Analytics/Model.antt =====
-- src/client/src/ui/analytics/model/analyticsModel.js with the stream of
-- services/analyticsService.js: the messages of the back end, mapped, shown in both charts and
-- published to the other applications of the container.
mod Published
mod Tests
use reactive_trader_cloud.Common.{
  String, Bool, true, false, Option, none, some, List, [], ◌∷◌, ◌++◌, if◌then◌else◌,
}
use reactive_trader_cloud.Common.Int.{ℤ, pos}
use reactive_trader_cloud.Common.Result.{Result, throws, returns}
use reactive_trader_cloud.Services.Models.{CurrencyPair, CurrencyPairPosition, PositionUpdates}
use reactive_trader_cloud.Services.Mappers.{PositionsDto, map_positions_from_dto}
use reactive_trader_cloud.System.OpenFin.{OpenFin, Call, publish_current_positions}
use reactive_trader_cloud.System.Service.Status.{ServiceStatus}
use reactive_trader_cloud.Ui.Analytics.{
  PnlChartModel, PositionsChartModel, update, base_traded_amount_name, toggle_pnl_display_mode,
}

pub record AnalyticsModel : Type 0 where
  pub is_analytics_service_connected : Bool
  pub observes_status : Bool
  pub observes_positions : Bool
  pub pnl_chart_model : PnlChartModel
  pub positions_chart_model : PositionsChartModel

-- What the model asks its region helper and the other applications for.
pub data Effect : Type 0 where
  helper_init helper_popout : Effect
  open_fin : List Call → Effect

-- An event of the router, a status of the service, or a message of the stream of positions.
pub data Event : Type 0 where
  init reference_data_loaded pop_out_analytics toggle : Event
  service_status : Bool → Event
  message : PositionsDto → Event

unfoldable pub created : AnalyticsModel
created = record {
  is_analytics_service_connected = false;
  observes_status = false;
  observes_positions = false;
  pnl_chart_model = record { last_pos = none; min_pnl = pos 0; max_pnl = pos 0; series_data = [] };
  positions_chart_model = record {
    series_data = [];
    y_axis_value_property_name = base_traded_amount_name;
  };
}

module _ (get_currency_pair : String → Result CurrencyPair) (to_fixed : ℤ → String)
    (container : OpenFin) where
  unfoldable pub on_update : PositionUpdates → AnalyticsModel → AnalyticsModel × List Effect
  unfolding update publish_current_positions
  on_update u m = (
    record m {
      pnl_chart_model = update to_fixed (some u.history);
      positions_chart_model = record m.positions_chart_model { series_data = u.current_positions };
    },
    open_fin (publish_current_positions u.current_positions container) ∷ [],
  )

  -- The mapping stands after the retry, so that its error ends the stream.
  unfoldable pub on_message : PositionsDto → AnalyticsModel → AnalyticsModel × List Effect
  unfolding map_positions_from_dto on_update
  on_message dto m = elim (map_positions_from_dto get_currency_pair dto) [
    | throws error ↦ (record m { observes_positions = false }, [])
    | returns u ↦ on_update u m
  ]

  unfoldable pub step : AnalyticsModel → Event → AnalyticsModel × List Effect
  unfolding on_message toggle_pnl_display_mode
  step m init = (record m { observes_status = true }, helper_init ∷ [])
  step m reference_data_loaded = (record m { observes_positions = true }, [])
  step m pop_out_analytics = (m, helper_popout ∷ [])
  step m toggle =
      (record m { positions_chart_model = toggle_pnl_display_mode m.positions_chart_model }, [])
  step m (service_status connected) =
      if m.observes_status
      then (record m { is_analytics_service_connected = connected }, [])
      else (m, [])
  step m (message dto) = if m.observes_positions then on_message dto m else (m, [])

  unfoldable pub run : AnalyticsModel → List Event → AnalyticsModel × List Effect
  unfolding step
  run m [] = (m, [])
  run m (event ∷ events) =
      let (m', effects) = step m event in
      let (m'', later) = run m' events in (m'', effects ++ later)
