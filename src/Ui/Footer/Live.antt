-- ===== src/Ui/Footer/Live.antt =====
-- The footer above the composite status service and the clients of the services: footerModel.js of
-- src/client/src/ui/footer/model, `_subscribeToConnectionStatus`, with
-- services/compositeStatusService.js, `start`.
mod Healthy
mod Tests
use reactive_trader_cloud.Common.{String, Bool, Option, List, [], ◌∷◌, if◌then◌else◌, ◌===◌}
use reactive_trader_cloud.System.Connection.{ConnectionStatus, ConnectionType}
use reactive_trader_cloud.System.Service.Instances
use reactive_trader_cloud.Services.CompositeStatus.{
  WellKnownService, service_key, CompositeStatusService, start, publishes, receive,
}
use reactive_trader_cloud.Ui.Footer
use reactive_trader_cloud.Ui.Footer.{
  FooterModel, init, toggle_service_status, service_statuses, connection_status, new,
}

pub record Application : Type 0 where
  pub composite : CompositeStatusService
  pub footer : FooterModel

-- An event at the client of a service, a status of the connection, or a click on the footer.
pub data Happening : Type 0 where
  at_service : WellKnownService → Instances.Event → Happening
  at_connection : ConnectionStatus → String → Option ConnectionType → Happening
  click : Happening

-- The services are started before the models: what the clients publish first is over when the footer
-- subscribes, and its lookup stays the empty one that it was made with.
unfoldable pub begin : Bool → Application
unfolding start Instances.created Footer.step new
begin in_open_fin = record {
  composite = start (λ w. Instances.created);
  footer = Footer.step new (init in_open_fin);
}

unfoldable pub happen : Application → Happening → Application
unfolding receive publishes Footer.step
happen a (at_service service event) =
    let composite' = receive service event a.composite in
    record {
      composite = composite';
      footer =
          if publishes service event a.composite
          then Footer.step a.footer (service_statuses composite'.services)
          else a.footer;
    }
happen a (at_connection status url type) = record a {
  footer = Footer.step a.footer (connection_status status url type);
}
happen a click = record a { footer = Footer.step a.footer toggle_service_status }

unfoldable pub live : Application → List Happening → Application
unfolding happen
live a [] = a
live a (h ∷ hs) = live (happen a h) hs

-- What a client hears of some happenings.
abbrev pub heard_by : WellKnownService → List Happening → List Instances.Event
heard_by w [] = []
heard_by w (at_service service event ∷ hs) =
    if service_key service === service_key w then event ∷ heard_by w hs else heard_by w hs
heard_by w (at_connection status url type ∷ hs) = heard_by w hs
heard_by w (click ∷ hs) = heard_by w hs
