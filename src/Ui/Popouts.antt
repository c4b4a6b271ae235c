-- ===== src/Ui/Popouts.antt =====
-- src/client/src/ui/common/popout, and `_addToRegion` of ui/regions/model/popoutRegionModel.js: the
-- windows in which models are shown outside of the page. A window has a number of its own.
mod Closing
mod Tests
use reactive_trader_cloud.Common.{
  ℕ, String, Bool, true, false, not, Option, none, some, List, [], ◌∷◌, ◌++◌, map, filter, find,
  if◌then◌else◌, ◌===◌, ◌==◌, ◌<>◌,
}
use reactive_trader_cloud.Common.Dict.{Dict, lookup, insert, remove}
use reactive_trader_cloud.Services.Models.{RegionSettings}
use reactive_trader_cloud.Common.Result.{Result, returns, throws}

pub record WindowOptions : Type 0 where
  pub width : ℕ
  pub height : ℕ
  pub resizable : Bool
  pub scrollable : Bool
  pub dockable : Bool

pub record PopoutOptions : Type 0 where
  pub key : String
  pub url : String
  pub title : String
  pub window_options : WindowOptions

-- The constructor of `PopoutOptions`
unfoldable pub new_popout_options : String → String → String → WindowOptions → PopoutOptions
new_popout_options key url title options = record {
  key = key;
  url = if url === "" then "about:blank" else url;
  title = title;
  window_options = options;
}

-- `n || 400`
abbrev pub or_400 : ℕ → ℕ
or_400 n = if n == 0 then 400 else n

abbrev pub settings_options : Option RegionSettings → WindowOptions
settings_options none = record {
  width = 400;
  height = 400;
  resizable = false;
  scrollable = false;
  dockable = false;
}
settings_options (some s) = record {
  width = or_400 s.width;
  height = or_400 s.height;
  resizable = false;
  scrollable = false;
  dockable = s.dockable;
}

abbrev pub settings_title : Option RegionSettings → String
settings_title none = ""
settings_title (some s) = s.title

-- The options of the window that the popout region opens for a registration; the outer `none` is a
-- model that is added without options, whose settings are read all the same.
unfoldable pub region_popout_options :
    String → Option (Option RegionSettings) → Result PopoutOptions
unfolding new_popout_options
region_popout_options key none = throws "Cannot read property 'regionSettings' of undefined"
region_popout_options key (some settings) =
    returns
      (new_popout_options key "/#/popout" (settings_title settings) (settings_options settings))

pub data PopoutService : Type 0 where
  open_fin_service browser_service : PopoutService

-- `getPopoutService`: made once.
unfoldable pub get_popout_service : Bool → Option PopoutService → PopoutService
get_popout_service in_open_fin (some service) = service
get_popout_service in_open_fin none = if in_open_fin then open_fin_service else browser_service

-- What the services ask of the window system, the docking manager and the page.
pub data Effect : Type 0 where
  create_window : ℕ → PopoutOptions → Effect
  open_window : String → String → String → Effect
  render unmount show_window close_window remove_listeners : ℕ → Effect
  resize_to : ℕ → ℕ → ℕ → Effect
  register : ℕ → Bool → Effect
  publish_window_load publish_undock_window : String → Effect
  log_error : String → Effect
  on_closing : ℕ → Effect

-- A window whose creation succeeded, with the name that it was given.
pub record Tearout : Type 0 where
  pub window : ℕ
  pub name : String

pub record OpenfinPopoutService : Type 0 where
  pub has_docking_manager : Bool
  pub popouts : Dict ℕ  -- the window by its name
  pub listening : List Tearout  -- with a handler of `close-requested`
  pub docked : List ℕ  -- with the class `docked` on their content

unfoldable pub new_openfin_popout_service : OpenfinPopoutService
new_openfin_popout_service = record {
  has_docking_manager = false;
  popouts = [];
  listening = [];
  docked = [];
}

pub data Event : Type 0 where
  main : Event  -- the container is ready
  created : ℕ → PopoutOptions → Event
  failed : ℕ → String → Event
  close_requested : ℕ → Event
  window_docked window_undocked : String → Event

unfoldable pub open_popout : ℕ → PopoutOptions → List Effect
open_popout window options = create_window window options ∷ []

-- `_registerWindow`
unfoldable pub register_window :
    Tearout → Bool → OpenfinPopoutService → OpenfinPopoutService × List Effect
unfolding insert
register_window t dockable s =
    if s.has_docking_manager
    then (
      record s { popouts = insert t.name t.window s.popouts },
      register t.window dockable ∷ publish_window_load t.name ∷ [],
    )
    else (s, [])

-- `_unregisterWindow`, with `undockPopout`
unfoldable pub unregister_window :
    String → OpenfinPopoutService → OpenfinPopoutService × List Effect
unfolding remove
unregister_window name s =
    (record s { popouts = remove name s.popouts }, publish_undock_window name ∷ [])

unfoldable pub on_created :
    ℕ → PopoutOptions → OpenfinPopoutService → OpenfinPopoutService × List Effect
unfolding register_window
on_created window options s =
    let t : Tearout = record { window = window; name = options.title } in
    let o = options.window_options in
    let (s', registered) = register_window t o.dockable s in
    (
      record s' { listening = s'.listening ++ t ∷ [] },
      render window ∷ resize_to window o.width o.height ∷ show_window window ∷ registered,
    )

-- The handler of `close-requested`, which a window has until it is called.
unfoldable pub on_close_requested : ℕ → OpenfinPopoutService → OpenfinPopoutService × List Effect
unfolding find filter unregister_window
on_close_requested window s = elim (find (λ t. t.window == window) s.listening) [
  | none ↦ (s, [])
  | some t ↦
      let (s', unregistered) = unregister_window t.name s in
      (
        record s' { listening = filter (λ u. not (u.window == window)) s'.listening },
        unregistered
            ++ unmount window
              ∷ on_closing window
              ∷ remove_listeners window
              ∷ close_window window
              ∷ [],
      )
]

-- The handlers of the messages of the docking manager. A class is added and removed on the window that
-- has the name.
unfoldable pub on_docked : String → OpenfinPopoutService → OpenfinPopoutService
unfolding lookup
on_docked name s = elim (lookup name s.popouts) [
  | none ↦ s
  | some window ↦ record s { docked = window ∷ s.docked }
]

unfoldable pub on_undocked : String → OpenfinPopoutService → OpenfinPopoutService
unfolding lookup filter
on_undocked name s = elim (lookup name s.popouts) [
  | none ↦ s
  | some window ↦ record s { docked = filter (λ w. not (w == window)) s.docked }
]

unfoldable pub step : OpenfinPopoutService → Event → OpenfinPopoutService × List Effect
unfolding on_created on_close_requested on_docked on_undocked
step s main = (record s { has_docking_manager = true }, [])
step s (created window options) = on_created window options s
step s (failed window message) = (s, log_error message ∷ [])
step s (close_requested window) = on_close_requested window s
step s (window_docked name) = (on_docked name s, [])
step s (window_undocked name) = (on_undocked name s, [])

unfoldable pub run : OpenfinPopoutService → List Event → OpenfinPopoutService × List Effect
unfolding step
run s [] = (s, [])
run s (event ∷ events) =
    let (s', effects) = step s event in let (s'', later) = run s' events in (s'', effects ++ later)

-- `BrowserPopoutService`: the options of a window as a text. The numbers come as their texts.
pub data OptionValue : Type 0 where
  flag : Bool → OptionValue
  number : String → OptionValue

unfoldable pub map_window_option_value : OptionValue → String
map_window_option_value (flag b) = if b then "yes" else "no"
map_window_option_value (number text) = text

abbrev pub join : List String → String
join [] = ""
join (x ∷ []) = x
join (x ∷ y ∷ xs) = x <> ("," <> join (y ∷ xs))

module _ (text : ℕ → String) where
  unfoldable pub window_options_string : String → String → WindowOptions → String
  unfolding map_window_option_value
  window_options_string top left o = join (
      map (λ (k, v). k <> ("=" <> map_window_option_value v))
        (("top", number top)
          ∷ ("left", number left)
          ∷ ("width", number (text o.width))
          ∷ ("height", number (text o.height))
          ∷ ("resizable", flag o.resizable)
          ∷ ("scrollable", flag o.scrollable)
          ∷ ("dockable", flag o.dockable)
          ∷ []))

  unfoldable pub open_browser_popout : String → String → PopoutOptions → List Effect
  unfolding window_options_string
  open_browser_popout top left options =
      open_window options.url options.title (window_options_string top left options.window_options)
      ∷ []

pub data BrowserEvent : Type 0 where
  load before_unload : BrowserEvent

-- The flag says whether the container of the view has been made.
unfoldable pub browser_step : ℕ → Bool → BrowserEvent → Bool × List Effect
browser_step window has_container load = (true, render window ∷ [])
browser_step window has_container before_unload =
    (has_container, (if has_container then unmount window ∷ [] else []) ++ on_closing window ∷ [])
