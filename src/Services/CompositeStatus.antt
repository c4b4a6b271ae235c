-- ===== src/Services/CompositeStatus.antt =====
-- src/client/src/services/compositeStatusService.js, with model/serviceStatusLookup.js and
-- model/serviceConst.js there: the statuses of the five services, merged into one lookup.
pub mod Lookups
use reactive_trader_cloud.Common.{
  String, Bool, Option, List, [], ◌∷◌, map, fold, ◌===◌, if◌then◌else◌,
}
use reactive_trader_cloud.Common.Dict.{Dict, insert, lookup}
use reactive_trader_cloud.System.Service.Status.{ServiceStatus}
use reactive_trader_cloud.System.Service.Dictionary.{create_service_status}
use reactive_trader_cloud.System.Service.Instances
use reactive_trader_cloud.System.Service.Instances.{Instances}
use reactive_trader_cloud.System.Service.Instances.Emission.{is_passed_on}

-- `ServiceConst`
pub data WellKnownService : Type 0 where
  pricing reference blotter execution analytics : WellKnownService

unfoldable pub service_key : WellKnownService → String
service_key pricing = "pricing"
service_key reference = "reference"
service_key blotter = "blotter"
service_key execution = "execution"
service_key analytics = "analytics"

-- `ServiceStatusLookup`: the statuses by the type of their service.
unfoldable pub update_service_status : Dict ServiceStatus → ServiceStatus → Dict ServiceStatus
unfolding insert
update_service_status services status = insert status.service_type status services

-- Its getters, one for each of the services.
unfoldable pub get_service : WellKnownService → Dict ServiceStatus → Option ServiceStatus
unfolding lookup service_key
get_service service services = lookup (service_key service) services

-- The scan of the statuses of all services, in the order in which they arrive.
unfoldable pub lookup_after : Dict ServiceStatus → List ServiceStatus → Dict ServiceStatus
unfolding fold update_service_status
lookup_after services statuses = fold update_service_status services statuses

-- The clients of the five services, and the lookup that the scan has made of their statuses.
pub record CompositeStatusService : Type 0 where
  pub instances : WellKnownService → Instances
  pub services : Dict ServiceStatus

-- In the order in which the streams are merged.
abbrev pub merged : List WellKnownService
merged = pricing ∷ reference ∷ blotter ∷ execution ∷ analytics ∷ []

-- What the status stream of a client has to say of its dictionary.
unfoldable pub status_of : (WellKnownService → Instances) → WellKnownService → ServiceStatus
unfolding service_key create_service_status
status_of instances service = create_service_status (service_key service) (instances service).value

-- `start`: each client publishes the status of the dictionary that it holds.
unfoldable pub start : (WellKnownService → Instances) → CompositeStatusService
unfolding lookup_after status_of
start instances = record {
  instances = instances;
  services = lookup_after [] (map (status_of instances) merged);
}

unfoldable pub instances_after :
    WellKnownService
    → Instances.Event
    → (WellKnownService → Instances)
    → WellKnownService
    → Instances
unfolding service_key Instances.step
instances_after service event instances other =
    if service_key service === service_key other
    then Instances.step (service_key other) (instances other) event
    else instances other

unfoldable pub publishes : WellKnownService → Instances.Event → CompositeStatusService → Bool
unfolding service_key is_passed_on
publishes service event c = is_passed_on (service_key service) (c.instances service) event

-- An event at the client of a service.
unfoldable pub receive :
    WellKnownService → Instances.Event → CompositeStatusService → CompositeStatusService
unfolding instances_after publishes update_service_status status_of
receive service event c =
    let instances' = instances_after service event c.instances in
    record {
      instances = instances';
      services =
          if publishes service event c
          then update_service_status c.services (status_of instances' service)
          else c.services;
    }
