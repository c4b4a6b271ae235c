-- ===== src/System/OpenFin/Windows.antt =====
-- The windows, subscriptions, charts and notifications of src/client/src/system/openFin/openFin.js, with
-- ui/common/components/chrome/model/chromeModel.js. The container's answers are arguments, and its
-- failures are logged.
use reactive_trader_cloud.Common.{
  ℕ, ◌≡◌, refl, String, Bool, false, ◌&&◌, List, [], ◌∷◌, ◌++◌, any, ◌<>◌, ◌===◌, if◌then◌else◌,
}
use reactive_trader_cloud.Services.Models.{Trade}
use reactive_trader_cloud.System.OpenFin.{OpenFin}

-- The states that a window of the container reports; the last stands for every other text.
pub data WindowState : Type 0 where
  maximized restored minimized other : WindowState

pub data WindowCall : Type 0 where
  close_window minimize_window maximize_window restore_window to_front : WindowCall
  subscribe_now subscribe_on_main : String → WindowCall
  change_symbol : String → ℕ → WindowCall
  create_application : String → WindowCall
  create_notification publish_new_item : Trade → WindowCall
  highlight_trade_row : Trade → WindowCall
  send_blotter_data : String → List Trade → WindowCall
  send_position_closed : String → String → WindowCall
  open_url_with_browser : String → WindowCall

unfoldable pub maximize : WindowState → List WindowCall
maximize maximized = restore_window ∷ to_front ∷ []
maximize restored = restore_window ∷ to_front ∷ []
maximize minimized = restore_window ∷ to_front ∷ []
maximize other = maximize_window ∷ []

unfoldable pub bring_to_front : WindowState → List WindowCall
bring_to_front minimized = restore_window ∷ to_front ∷ []
bring_to_front maximized = to_front ∷ []
bring_to_front restored = to_front ∷ []
bring_to_front other = to_front ∷ []

-- The flag says whether the bus of the container is there.
unfoldable pub add_subscription : String → Bool → OpenFin → List WindowCall
add_subscription name has_bus o =
    if o.is_running_in_open_fin
    then (if has_bus then subscribe_now name ∷ [] else subscribe_on_main name ∷ [])
    else []

pub record DesktopApp : Type 0 where
  pub uuid : String
  pub is_running : Bool

abbrev pub chart_iq_app_id : String
chart_iq_app_id = "ChartIQ"

abbrev pub interval : ℕ
interval = 5

unfoldable pub refresh_currency_chart : String → List WindowCall
refresh_currency_chart symbol = change_symbol symbol interval ∷ []

unfoldable pub launch_currency_chart : String → List WindowCall
launch_currency_chart symbol =
    create_application
      ("http://openfin.chartiq.com/0.5/chartiq-shim.html?symbol=" <> (symbol <> "&period=5"))
    ∷ []

-- The applications are those that the container lists.
unfoldable pub display_currency_chart : String → List DesktopApp → List WindowCall
unfolding any refresh_currency_chart launch_currency_chart
display_currency_chart symbol apps =
    if any (λ app. app.is_running && app.uuid === chart_iq_app_id) apps
    then refresh_currency_chart symbol
    else launch_currency_chart symbol

unfoldable pub open_trade_notification : Trade → OpenFin → List WindowCall
open_trade_notification trade o =
    if o.is_running_in_open_fin then create_notification trade ∷ publish_new_item trade ∷ [] else []

-- A click on a notification, by the state of the window.
unfoldable pub on_notification_clicked : Trade → WindowState → List WindowCall
unfolding bring_to_front
on_notification_clicked trade state = bring_to_front state ++ highlight_trade_row trade ∷ []

unfoldable pub send_all_blotter_data : String → List Trade → List WindowCall
send_all_blotter_data uuid trades = send_blotter_data uuid trades ∷ []

unfoldable pub send_position_closed_notification : String → String → List WindowCall
send_position_closed_notification uuid correlation = send_position_closed uuid correlation ∷ []

unfoldable pub open_link_with_browser : String → List WindowCall
open_link_with_browser url = open_url_with_browser url ∷ []

pub record ChromeModel : Type 0 where
  pub is_running_in_open_fin : Bool

pub data ChromeEvent : Type 0 where
  init minimize_clicked close_clicked : ChromeEvent
  maximize_clicked : WindowState → ChromeEvent

unfoldable pub chrome_step : OpenFin → ChromeModel → ChromeEvent → ChromeModel × List WindowCall
unfolding maximize
chrome_step o m init = (record m { is_running_in_open_fin = o.is_running_in_open_fin }, [])
chrome_step o m minimize_clicked = (m, minimize_window ∷ [])
chrome_step o m close_clicked = (m, close_window ∷ [])
chrome_step o m (maximize_clicked state) = (m, maximize state)

-- A second click on the button restores the window that the first one has maximized.
restored_again :
    (o : OpenFin) (m : ChromeModel)
    → (chrome_step o m (maximize_clicked other)).1
        ++ (chrome_step o m (maximize_clicked maximized)).1
      ≡ maximize_window ∷ restore_window ∷ to_front ∷ []
unfolding chrome_step
restored_again o m = refl

-- An application that is listed without running is launched.
launched :
    display_currency_chart "EURUSD" (record { uuid = "ChartIQ"; is_running = false } ∷ [])
    ≡ create_application "http://openfin.chartiq.com/0.5/chartiq-shim.html?symbol=EURUSD&period=5"
      ∷ []
unfolding display_currency_chart
launched = refl
