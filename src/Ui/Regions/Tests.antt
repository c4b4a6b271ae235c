-- ===== src/Ui/Regions/Tests.antt =====
-- Regions at concrete requests.
use reactive_trader_cloud.Common.{
  ◌≡◌, ◌≢◌, refl, String, true, false, none, some, List, [], ◌∷◌, arith, eq_iff, filter,
}
use reactive_trader_cloud.Common.Dict.{lookup}
use reactive_trader_cloud.Common.Result.{returns, throws}
use reactive_trader_cloud.Ui.Regions.{
  ReturnTo, plain, single_item, Region, RegionManager, in_region, init, popout, popout_closed,
  should_popout_from_region,
}
use reactive_trader_cloud.Ui.Regions.Steps.{held}
use reactive_trader_cloud.Ui.Regions.Single.{Request, adds, toggles}
use reactive_trader_cloud.Ui.Regions.Popouts.{popout-popout_closed}

abbrev workspace : Region
workspace = record {
  kind = plain;
  registrations = in_region "tile1" ∷ in_region "tile2" ∷ [];
  is_collapsed = false;
}

abbrev windows : Region
windows = record { kind = plain; registrations = []; is_collapsed = false }

abbrev sidebar : Region
sidebar = record { kind = single_item; registrations = []; is_collapsed = false }

abbrev manager : RegionManager
manager = record {
  regions = ("workspace", workspace) ∷ ("popout", windows) ∷ [];
  persists = true;
  stored = [];
}

abbrev requests : List Request
requests = adds (in_region "a") ∷ adds (in_region "b") ∷ toggles ∷ []

-- A model that was popped out when the state was stored is popped out again.
started_out :
    elim (init "workspace" "tile3" (record manager { stored = ("tile3", "popout") ∷ [] })) [
      | throws e ↦ none
      | returns s ↦ held "popout" s.0
    ]
    ≡ some (
        record {
          model_id = "tile3";
          display_context = none;
          on_externally_removed = some (record { region_name = "workspace"; model_id = "tile3" });
        }
        ∷ [])
unfolding init lookup filter
started_out = refl

workspace_apart : ◌≢◌ {A = String} "workspace" "popout"
workspace_apart = ground (arith, eq_iff "workspace" "popout")

popout-popout_closed_example :
    (m1 : RegionManager) × (e1 : List ReturnTo) × (m2 : RegionManager) × (e2 : List ReturnTo)
    × (popout "workspace" "tile1" manager ≡ returns (m1, e1))
    × (popout_closed "tile1" m1 ≡ returns (m2, e2))
    × (held "workspace" m1 ≡ some (in_region "tile2" ∷ []))
    × (should_popout_from_region "workspace" "tile1" m1 ≡ true)
    × (held "workspace" m2 ≡ some (in_region "tile2" ∷ in_region "tile1" ∷ []))
    × (held "popout" m2 ≡ some [])
    × (should_popout_from_region "workspace" "tile1" m2 ≡ false)
unfolding lookup filter
popout-popout_closed_example =
    popout-popout_closed "workspace" "tile1" manager workspace windows refl refl workspace_apart
      refl refl refl refl
