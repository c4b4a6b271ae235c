-- ===== src/Ui/Footer/View.antt =====
-- src/client/src/ui/footer/views: what the footer shows of its model.
use reactive_trader_cloud.Common.{
  ℕ, ◌≡◌, refl, String, Bool, true, false, not, Option, none, some, List, [], ◌∷◌, map, ◌<>◌, ◌==◌,
  if◌then◌else◌,
}
use reactive_trader_cloud.System.Connection.{ConnectionType, web_socket, long_polling, unknown}
use reactive_trader_cloud.System.Service.Status.{ServiceStatus}
use reactive_trader_cloud.Ui.Classes.{class_names}
use reactive_trader_cloud.Ui.Footer.{
  FooterModel, ApplicationStatus, application_unknown, healthy, warning, down,
}

-- The texts of `ConnectionType`; a missing value prints as `undefined`.
abbrev pub connection_type_text : Option ConnectionType → String
connection_type_text none = "undefined"
connection_type_text (some web_socket) = "web socket"
connection_type_text (some long_polling) = "long polling"
connection_type_text (some unknown) = ""

abbrev pub url_text : Option String → String
url_text none = "undefined"
url_text (some url) = url

unfoldable pub connection_text : FooterModel → String
connection_text m =
    if m.is_connected_to_broker
    then "Connected to "
      <> (url_text m.connection_url <> (" (" <> (connection_type_text m.connection_type <> ")")))
    else "Disconnected"

-- An item of the panel: whether it is marked as online, and its text.
pub record Item : Type 0 where
  pub is_online : Bool
  pub title : String

unfoldable pub render_broker_status : FooterModel → Item
render_broker_status m = record { is_online = m.is_connected_to_broker; title = "broker" }

module _ (decimal : ℕ → String) where
  unfoldable pub render_service : String × ServiceStatus → Item
  render_service (type, status) =
      if status.is_connected
      then record {
        is_online = true;
        title =
            type
            <> (" ("
                <> (decimal status.connected_instance_count
                    <> (if status.connected_instance_count == 1 then " node)" else " nodes)")));
      }
      else record { is_online = false; title = type }

  unfoldable pub render_services : FooterModel → List Item
  unfolding render_broker_status render_service
  render_services m = render_broker_status m ∷ map render_service m.service_lookup

unfoldable pub status_indicator_classes : ApplicationStatus → List String × List String
status_indicator_classes application_unknown =
    ("status-indicator" ∷ [], "status-indicator__icon" ∷ [])
status_indicator_classes healthy = (
  "status-indicator" ∷ "status-indicator--healthy" ∷ [],
  "status-indicator__icon" ∷ "fa fa-check" ∷ [],
)
status_indicator_classes warning =
    ("status-indicator" ∷ "status-indicator--warning" ∷ [], "status-indicator__icon" ∷ [])
status_indicator_classes down = (
  "status-indicator" ∷ "status-indicator--down" ∷ [],
  "status-indicator__icon" ∷ "fa fa-times" ∷ [],
)

pub record FooterView : Type 0 where
  pub panel_classes : List String
  pub logo_classes : List String
  pub footer_classes : List String
  pub connection : String
  pub services : List Item
  pub indicator : List String × List String

unfoldable pub render : (ℕ → String) → FooterModel → FooterView
unfolding connection_text render_services status_indicator_classes
render decimal m = record {
  panel_classes =
      class_names
        (("footer__service-status-panel", true) ∷ ("hide", not m.should_show_service_status) ∷ []);
  logo_classes =
      class_names
        (("footer__logo", true) ∷ ("footer__logo-openfin", m.is_running_in_open_fin) ∷ []);
  footer_classes =
      class_names (("footer", true) ∷ ("footer--disconnected", not m.is_connected_to_broker) ∷ []);
  connection = connection_text m;
  services = render_services decimal m;
  indicator = status_indicator_classes m.application_status;
}

-- The item of a service counts its instances in the right number.
one_node :
    render_service
      (λ n. "1")
      (
        "pricing",
        record {
          service_type = "pricing";
          instance_statuses = [];
          is_connected = true;
          connected_instance_count = 1;
        },
      )
    ≡ record { is_online = true; title = "pricing (1 node)" }
unfolding render_service
one_node = refl
