-- ===== src/Ui/Regions.antt =====
-- src/client/src/ui/regions: regionManager.js and the models of regions in model, with
-- ui/common/regionManagerHelper.js. A model stands for itself by its id. The stored state is the
-- object that is written to the local storage and read back.
pub mod Single
pub mod Steps
pub mod Popouts
mod Tests
use reactive_trader_cloud.Common.{
  ℕ, String, Bool, true, false, not, ◌&&◌, Option, none, some, List, [], ◌∷◌, ◌++◌, ◌===◌, ◌==◌,
  filter, length, if◌then◌else◌, fold,
}
use reactive_trader_cloud.Common.Dict.{Dict, lookup, insert}
use reactive_trader_cloud.Common.Result.{Result, returns, throws, ◌>>=◌}

-- The callback of a popout: the region to which the model goes back.
pub record ReturnTo : Type 0 where
  pub region_name : String
  pub model_id : String

pub record Registration : Type 0 where
  pub model_id : String
  pub display_context : Option String
  pub on_externally_removed : Option ReturnTo

pub data RegionKind : Type 0 where
  plain single_item : RegionKind

pub record Region : Type 0 where
  pub kind : RegionKind
  pub registrations : List Registration
  pub is_collapsed : Bool

abbrev pub same_context : Option String → Option String → Bool
same_context none none = true
same_context (some a) (some b) = a === b
same_context _ _ = false

abbrev pub matches : String → Option String → Registration → Bool
matches model context r = (r.model_id === model) && same_context r.display_context context

-- The callbacks of the registrations that go, if they were removed from outside.
abbrev pub callbacks : Bool → List Registration → List ReturnTo
callbacks external [] = []
callbacks external (r ∷ rs) = elim r.on_externally_removed [
  | none ↦ callbacks external rs
  | some back ↦ if external then back ∷ callbacks external rs else callbacks external rs
]

-- `RegionModel._removeFromRegion`, and `SingleItemRegionModel._removeFromRegion`, which collapses.
unfoldable pub remove_from_region : String → Bool → Option String → Region → Region × List ReturnTo
unfolding filter
remove_from_region model external context region = (
  record {
    kind = region.kind;
    registrations = filter (λ r. not (matches model context r)) region.registrations;
    is_collapsed = elim region.kind [ plain ↦ region.is_collapsed | single_item ↦ true ];
  },
  callbacks external (filter (matches model context) region.registrations),
)

-- `SingleItemRegionModel._addToRegion` up to the call of its base.
unfoldable pub make_room : Region → Region × List ReturnTo
unfolding remove_from_region
make_room region =
    let called : List ReturnTo = elim region.registrations [
      | [] ↦ []
      | ◌∷◌ r rest ↦
          if length region.registrations == 1
          then (remove_from_region r.model_id true none region).1
          else []
    ] in
    (record region { registrations = []; is_collapsed = false }, called)

-- `_addToRegion` of both kinds.
unfoldable pub add_to_region : Registration → Region → Region × List ReturnTo
unfolding make_room
add_to_region r region = elim region.kind [
  | plain ↦ (record region { registrations = region.registrations ++ r ∷ [] }, [])
  | single_item ↦
      let (room, called) = make_room region in
      (record room { registrations = room.registrations ++ r ∷ [] }, called)
]

unfoldable pub toggle_is_collapsed : Region → Region
toggle_is_collapsed region = record region { is_collapsed = not region.is_collapsed }

pub record RegionManager : Type 0 where
  pub regions : Dict Region
  pub persists : Bool
  pub stored : Dict String  -- the name of the region by the id of the model

-- `_saveState`
unfoldable pub save_state : String → String → RegionManager → RegionManager
unfolding insert
save_state region model m = record m { stored = insert model region m.stored }

unfoldable pub should_popout_from_region : String → String → RegionManager → Bool
unfolding lookup
should_popout_from_region region model m = elim (lookup model m.stored) [
  | none ↦ false
  | some stored ↦ not (stored === region)
]

-- `RegionManager.addToRegion`, and `removeFromRegion`; a region that is not registered throws.
unfoldable pub add :
    String → Registration → Bool → RegionManager → Result (RegionManager × List ReturnTo)
unfolding lookup insert add_to_region save_state
add name r persist m = elim (lookup name m.regions) [
  | none ↦ throws "region not registered"
  | some region ↦
      let (region', called) = add_to_region r region in
      let m' = record m { regions = insert name region' m.regions } in
      returns (if m.persists && persist then save_state name r.model_id m' else m', called)
]

unfoldable pub remove :
    String → String → Bool → Option String → RegionManager → Result (RegionManager × List ReturnTo)
unfolding lookup insert remove_from_region
remove name model external context m = elim (lookup name m.regions) [
  | none ↦ throws "region not registered"
  | some region ↦
      let (region', called) = remove_from_region model external context region in
      returns (record m { regions = insert name region' m.regions }, called)
]

abbrev pub in_region : String → Registration
in_region model = record { model_id = model; display_context = none; on_externally_removed = none }

-- `RegionManagerHelper.popout`, with the callbacks that are called.
unfoldable pub popout : String → String → RegionManager → Result (RegionManager × List ReturnTo)
unfolding add remove
popout name model m = do
  removed ← remove name model false none m
  added ←
      add "popout"
        (record {
          model_id = model;
          display_context = none;
          on_externally_removed = some (record { region_name = name; model_id = model });
        })
        true removed.0
  returns (added.0, removed.1 ++ added.1)

-- `RegionManagerHelper.init`: into its region, and out of it again if it was popped out when the state
-- was stored.
unfoldable pub init : String → String → RegionManager → Result (RegionManager × List ReturnTo)
unfolding add should_popout_from_region popout
init name model m = do
  added ← add name (in_region model) false m
  (if should_popout_from_region name model added.0
      then (do out ← popout name model added.0; returns (out.0, added.1 ++ out.1))
      else returns added)

-- The callbacks, each of which adds its model to its region; with those that this calls in turn.
unfoldable pub call_back : List ReturnTo → RegionManager → Result (RegionManager × List ReturnTo)
unfolding add
call_back [] m = returns (m, [])
call_back (back ∷ rest) m = do
  added ← add back.region_name (in_region back.model_id) true m
  later ← call_back rest added.0
  returns (later.0, added.1 ++ later.1)

-- The window of a popout is closed: the event `removeFromRegion` of the popout region.
unfoldable pub popout_closed : String → RegionManager → Result (RegionManager × List ReturnTo)
unfolding remove call_back
popout_closed model m = do
  removed ← remove "popout" model true none m
  call_back removed.1 removed.0
