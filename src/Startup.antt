-- ===== src/Startup.antt =====
-- src/client/src/appBootstrapper.js, with wellKnownModelIds.js: the order in which the parts of the client
-- are started.
mod Order
use reactive_trader_cloud.Common.{
  String, Bool, List, [], ◌∷◌, ◌++◌, map, if◌then◌else◌, ◌===◌, any, ◌||◌, false,
}
use reactive_trader_cloud.Services.CompositeStatus.{
  WellKnownService, pricing, reference, blotter, execution, analytics,
}

-- `WellKnownModelIds`
pub data WellKnownModel : Type 0 where
  workspace_region_model popout_region_model sidebar_region_model : WellKnownModel
  blotter_region_model shell_model footer_model analytics_model : WellKnownModel
  blotter_model chrome_model sidebar_model : WellKnownModel

unfoldable pub model_id : WellKnownModel → String
model_id workspace_region_model = "workspaceRegionModelId"
model_id popout_region_model = "popoutRegionModelId"
model_id sidebar_region_model = "sidebarRegionModelId"
model_id blotter_region_model = "blotterRegionModelId"
model_id shell_model = "shellModelId"
model_id footer_model = "footerModelId"
model_id analytics_model = "analyticsModelId"
model_id blotter_model = "blotterModelId"
model_id chrome_model = "chromeModelId"
model_id sidebar_model = "sidebarModelId"

pub data Action : Type 0 where
  connect_service : WellKnownService → Action
  start_composite_status load_reference_data connect_connection : Action
  observe_events : WellKnownModel → Action
  begin_load_tiles subscribe_to_has_loaded : Action
  broadcast_init await_container : Action
  display_ui : Action

-- `endpointURL`; the configuration is a file beside the client.
unfoldable pub endpoint_url : Bool → String → String → String
endpoint_url overwrite configured host_name = if overwrite then configured else host_name

unfoldable pub start_services : List Action
start_services =
    connect_service pricing
    ∷ connect_service blotter
    ∷ connect_service execution
    ∷ connect_service analytics
    ∷ start_composite_status
    ∷ connect_service reference
    ∷ load_reference_data
    ∷ connect_connection
    ∷ []

-- In OpenFin the event `init` waits until the container is ready.
unfoldable pub start_models : Bool → List Action
start_models in_open_fin =
    observe_events workspace_region_model
    ∷ observe_events popout_region_model
    ∷ observe_events blotter_region_model
    ∷ observe_events sidebar_region_model
    ∷ observe_events chrome_model
    ∷ begin_load_tiles
    ∷ observe_events blotter_model
    ∷ observe_events analytics_model
    ∷ observe_events footer_model
    ∷ observe_events shell_model
    ∷ subscribe_to_has_loaded
    ∷ (if in_open_fin then await_container else broadcast_init)
    ∷ []

unfoldable pub run : Bool → List Action
unfolding start_services start_models
run in_open_fin = start_services ++ start_models in_open_fin ++ display_ui ∷ []
