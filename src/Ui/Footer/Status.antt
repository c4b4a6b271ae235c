-- ===== src/Ui/Footer/Status.antt =====
-- The application status that the footer shows.
use reactive_trader_cloud.Common.{
  ◌≡◌, ◌↔◌, refl, sym, ap, ◌∙◌, String, true, Option, none, some, List, [], ◌∷◌, every, fold, arith,
  ◌===◌, if◌then◌else◌,
}
use reactive_trader_cloud.Common.Dict.{Dict, lookup, values, lookup-insert}
use reactive_trader_cloud.Common.Dict.Values.{every-lookup, lookup-every}
use reactive_trader_cloud.System.Service.Status.{ServiceStatus}
use reactive_trader_cloud.Services.CompositeStatus.{update_service_status, lookup_after}
use reactive_trader_cloud.Services.CompositeStatus.Lookups.{lookup_after-Distinct}
use reactive_trader_cloud.Ui.Footer.{
  healthy, FooterModel, service_statuses, update_application_status, on_event, is_web_socket, step,
}

-- The last of some statuses of a service, or what there was before them.
abbrev pub last_status : String → List ServiceStatus → Option ServiceStatus → Option ServiceStatus
last_status k [] before = before
last_status k (s ∷ ss) before = last_status k ss (if s.service_type === k then some s else before)

lookup-lookup_after :
    (k : String) (services : Dict ServiceStatus) (statuses : List ServiceStatus)
    → lookup k (lookup_after services statuses) ≡ last_status k statuses (lookup k services)
unfolding lookup_after update_service_status fold
lookup-lookup_after k services [] = refl
lookup-lookup_after k services (s ∷ ss) =
    lookup-lookup_after k (update_service_status services s) ss
    ∙ ap (last_status k ss) (lookup-insert k s.service_type s services)

pub healthy_iff :
    (m : FooterModel)
    → ((update_application_status m).application_status ≡ healthy) ↔ (
        (m.is_connected_to_broker ≡ true)
        × (every (λ s. s.is_connected) (values m.service_lookup) ≡ true)
        × (is_web_socket m.connection_type ≡ true))
unfolding update_application_status
healthy_iff m = (λ h. (ground arith, ground arith, ground arith), λ h. ground arith)

-- When the lookup that was scanned from some statuses arrives, the application is healthy exactly
-- if the broker is connected, the connection is a web socket, and of every service of which there
-- is a status the last one is connected.
pub healthy-step :
    (m : FooterModel) (statuses : List ServiceStatus)
    → ((step m (service_statuses (lookup_after [] statuses))).application_status ≡ healthy) ↔ (
        (m.is_connected_to_broker ≡ true)
        × (is_web_socket m.connection_type ≡ true)
        × ((k : String) (s : ServiceStatus)
            → last_status k statuses none ≡ some s
            → s.is_connected ≡ true))
unfolding step on_event lookup
healthy-step m statuses =
    let services = lookup_after [] statuses in
    let n : FooterModel = record m { service_lookup = services } in
    (
      λ h.
          let (broker, all, socket) = (healthy_iff n).0 h in
          (
            broker,
            socket,
            λ k s e.
                every-lookup (λ s. s.is_connected) services all k s
                  (lookup-lookup_after k [] statuses ∙ e),
          ),
      λ h. (healthy_iff n).1 (
        h.0,
        lookup-every (λ s. s.is_connected) services (lookup_after-Distinct [] statuses tt)
            (λ k s e. h.2 k s (sym (lookup-lookup_after k [] statuses) ∙ e)),
        h.1,
      ),
    )
