-- ===== src/Ui/Popouts/Tests.antt =====
-- Popouts at concrete events.
use reactive_trader_cloud.Common.{◌≡◌, ◌≤◌, refl, true, false, some, List, [], ◌∷◌}
use reactive_trader_cloud.Common.Result.{returns}
use reactive_trader_cloud.Services.Models.{RegionSettings}
use reactive_trader_cloud.Ui.Popouts.{
  PopoutOptions, region_popout_options, new_popout_options, Event, main, created, close_requested,
  window_docked, run, new_openfin_popout_service, window_options_string, unmount, on_closing,
  browser_step, before_unload,
}
use reactive_trader_cloud.Ui.Popouts.Closing.{closings, closings-run}

abbrev blotter : RegionSettings
blotter = record { title = "Blotter"; width = 850; height = 0; dockable = false }

abbrev blotter_options : PopoutOptions
blotter_options = record {
  key = "k";
  url = "/#/popout";
  title = "Blotter";
  window_options = record {
    width = 850;
    height = 400;
    resizable = false;
    scrollable = false;
    dockable = false;
  };
}

settings_used : region_popout_options "k" (some (some blotter)) ≡ returns blotter_options
unfolding region_popout_options new_popout_options
settings_used = refl

options_text :
    window_options_string (λ n. "n") "10" "20" blotter_options.window_options
    ≡ "top=10,left=20,width=n,height=n,resizable=no,scrollable=no,dockable=no"
unfolding window_options_string
options_text = refl

abbrev events : List Event
events =
    main
    ∷ created 1 blotter_options
    ∷ window_docked "Blotter"
    ∷ close_requested 1
    ∷ close_requested 1
    ∷ []

closed_once : closings 1 (run new_openfin_popout_service events).1 ≡ 1
unfolding run new_openfin_popout_service
closed_once = refl

nothing_left : (run new_openfin_popout_service events).0.listening ≡ []
unfolding run new_openfin_popout_service
nothing_left = refl

-- A window of the browser calls back at every attempt to leave it.
unloaded_twice : (browser_step 1 true before_unload).1 ≡ unmount 1 ∷ on_closing 1 ∷ []
unfolding browser_step
unloaded_twice = refl

closings-run_example : closings 1 (run new_openfin_popout_service events).1 ≤ 1
closings-run_example = closings-run 1 events
