-- ===== src/Ui/Footer/Tests.antt =====
-- The footer at concrete statuses.
use reactive_trader_cloud.Common.{◌≡◌, refl, String, Bool, true, false, some, List, [], ◌∷◌}
use reactive_trader_cloud.System.Connection.{connected, web_socket}
use reactive_trader_cloud.System.Service.Status.{ServiceStatus}
use reactive_trader_cloud.Services.CompositeStatus.{lookup_after}
use reactive_trader_cloud.Ui.Footer.{
  FooterModel, healthy, warning, service_statuses, connection_status, new, step,
}

abbrev status : String → Bool → ServiceStatus
status type up = record {
  service_type = type;
  instance_statuses = [];
  is_connected = up;
  connected_instance_count = 0;
}

abbrev online : FooterModel
online = step new (connection_status connected "ws://host" (some web_socket))

-- With no status of any service, the connection alone makes the application healthy.
healthy_without_services : online.application_status ≡ healthy
unfolding step new
healthy_without_services = refl

abbrev statuses : List ServiceStatus
statuses = status "pricing" false ∷ status "blotter" true ∷ status "pricing" true ∷ []

recovered : (step online (service_statuses (lookup_after [] statuses))).application_status ≡ healthy
unfolding step new lookup_after
recovered = refl

one_down :
    (step online (
      service_statuses
        (lookup_after [] (status "blotter" true ∷ status "pricing" false ∷ [])))).application_status
    ≡ warning
unfolding step new lookup_after
one_down = refl
