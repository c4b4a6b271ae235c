-- ===== src/Startup/Order.antt =====
-- What comes before what when the client starts.
use reactive_trader_cloud.Common.{
  ◌≡◌, refl, String, Bool, true, false, ◌||◌, List, [], ◌∷◌, ◌===◌, if◌then◌else◌,
}
use reactive_trader_cloud.Services.CompositeStatus.{
  WellKnownService, pricing, reference, blotter, execution, analytics, service_key,
}
use reactive_trader_cloud.Startup.{
  WellKnownModel, workspace_region_model, popout_region_model, sidebar_region_model,
  blotter_region_model, shell_model, footer_model, analytics_model, blotter_model, chrome_model,
  model_id, Action, connect_service, observe_events, connect_connection, broadcast_init,
  await_container, run,
}

-- The services that are connected before the connection is opened.
abbrev connects_before : String → List Action → Bool
connects_before key [] = false
connects_before key (connect_service w ∷ rest) = service_key w === key || connects_before key rest
connects_before key (connect_connection ∷ rest) = false
connects_before key (_ ∷ rest) = connects_before key rest

-- The models that observe their events before `init` is broadcast or waited for.
abbrev observes_before : String → List Action → Bool
observes_before id [] = false
observes_before id (observe_events m ∷ rest) = model_id m === id || observes_before id rest
observes_before id (broadcast_init ∷ rest) = false
observes_before id (await_container ∷ rest) = false
observes_before id (_ ∷ rest) = observes_before id rest

-- No service misses the first status of the connection.
connected_first : (b : Bool) (w : WellKnownService) → connects_before (service_key w) (run b) ≡ true
unfolding run service_key
connected_first b pricing = refl
connected_first b reference = refl
connected_first b blotter = refl
connected_first b execution = refl
connected_first b analytics = refl

-- Each of these models hears of `init`.
abbrev heard : List WellKnownModel
heard =
    workspace_region_model ∷ popout_region_model ∷ sidebar_region_model ∷ blotter_region_model
    ∷ shell_model ∷ footer_model ∷ analytics_model ∷ blotter_model ∷ chrome_model ∷ []

abbrev all_observe : List WellKnownModel → List Action → Bool
all_observe [] actions = true
all_observe (m ∷ ms) actions =
    if observes_before (model_id m) actions then all_observe ms actions else false

observed_first : (b : Bool) → all_observe heard (run b) ≡ true
unfolding run model_id
observed_first true = refl
observed_first false = refl
