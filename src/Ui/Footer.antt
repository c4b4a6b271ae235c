-- ===== src/Ui/Footer.antt =====
-- src/client/src/ui/footer/model/footerModel.js.
mod Live
mod View
pub mod Status
mod Tests
use reactive_trader_cloud.Common.{
  ℕ, String, Bool, true, false, not, ◌&&◌, Option, none, some, List, [], ◌∷◌, every, any, fold,
  if◌then◌else◌,
}
use reactive_trader_cloud.Common.Dict.{Dict, insert, values}
use reactive_trader_cloud.System.Connection.{
  ConnectionStatus, idle, connected, disconnected, session_expired, ConnectionType, web_socket,
  long_polling, unknown,
}
use reactive_trader_cloud.System.Service.Status.{ServiceStatus}

pub data ApplicationStatus : Type 0 where
  application_unknown healthy warning down : ApplicationStatus

pub record FooterModel : Type 0 where
  pub is_connected_to_broker : Bool
  pub connection_url : Option String
  pub connection_type : Option ConnectionType
  pub service_lookup : Dict ServiceStatus
  pub should_show_service_status : Bool
  pub application_status : ApplicationStatus
  pub is_running_in_open_fin : Bool

pub data Event : Type 0 where
  init : Bool → Event  -- whether the application runs in OpenFin
  toggle_service_status : Event
  service_statuses : Dict ServiceStatus → Event
  connection_status : ConnectionStatus → String → Option ConnectionType → Event

unfoldable pub new : FooterModel
new = record {
  is_connected_to_broker = false;
  connection_url = none;
  connection_type = none;
  service_lookup = [];
  should_show_service_status = false;
  application_status = application_unknown;
  is_running_in_open_fin = false;
}

abbrev pub is_web_socket : Option ConnectionType → Bool
is_web_socket (some web_socket) = true
is_web_socket _ = false

abbrev pub is_connected_status : ConnectionStatus → Bool
is_connected_status connected = true
is_connected_status _ = false

-- `_updateApplicationStatus`
unfoldable pub update_application_status : FooterModel → FooterModel
unfolding values every any
update_application_status m =
    let services = values m.service_lookup in
    record m {
      application_status =
          if m.is_connected_to_broker
            && every (λ s. s.is_connected) services
            && is_web_socket m.connection_type
          then healthy
          else (if any (λ s. s.is_connected) services then warning else down);
    }

unfoldable pub on_event : Event → FooterModel → FooterModel
on_event (init in_open_fin) m = record m { is_running_in_open_fin = in_open_fin }
on_event toggle_service_status m = record m {
  should_show_service_status = not m.should_show_service_status;
}
on_event (service_statuses lookup) m = record m { service_lookup = lookup }
on_event (connection_status status url type) m = record m {
  is_connected_to_broker = is_connected_status status;
  connection_url = some url;
  connection_type = type;
}

-- The router calls `postProcess` after each event.
unfoldable pub step : FooterModel → Event → FooterModel
unfolding on_event update_application_status
step m event = update_application_status (on_event event m)

-- Where a link opens.
pub data Opened : Type 0 where
  by_open_fin : String → Opened
  by_browser : String → Opened

unfoldable pub open_link : String → FooterModel → Opened
open_link url m = if m.is_running_in_open_fin then by_open_fin url else by_browser url
