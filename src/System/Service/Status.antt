-- ===== src/System/Service/Status.antt =====
-- serviceInstanceStatus.js and serviceStatus.js of src/client/src/system/service.
use reactive_trader_cloud.Common.{
  ℕ, String, Bool, true, false, Option, none, some, List, ◌===◌, if◌then◌else◌, length, filter,
  find,
}
use reactive_trader_cloud.Common.Result.{Result, returns, throws, ◌>>=◌}

-- A load or a timestamp is a number, or `none` for NaN.
pub record ServiceInstanceStatus : Type 0 where
  pub service_type : String
  pub service_id : String
  pub timestamp : Option ℕ
  pub service_load : Option ℕ
  pub is_connected : Bool

-- `Guard.stringIsNotEmpty` at a text
unfoldable pub string_is_not_empty : String → String → Result (Unit {0})
string_is_not_empty value message = if value === "" then throws message else returns tt

-- The constructor of `ServiceInstanceStatus`.
unfoldable pub new_status :
    String → String → Option ℕ → Option ℕ → Bool → Result ServiceInstanceStatus
unfolding string_is_not_empty
new_status type id timestamp load connected = do
  _ ← string_is_not_empty type "serviceType must be as string and not empty"
  _ ← string_is_not_empty id "serviceId must be as string and not empty"
  returns (record {
    service_type = type;
    service_id = id;
    timestamp = timestamp;
    service_load = load;
    is_connected = connected;
  })

unfoldable pub create_for_disconnected : String → String → Result ServiceInstanceStatus
unfolding new_status
create_for_disconnected type id = new_status type id none none false

unfoldable pub create_for_connected : String → String → ℕ → ℕ → Result ServiceInstanceStatus
unfolding new_status
create_for_connected type id timestamp load = new_status type id (some timestamp) (some load) true

pub record ServiceStatus : Type 0 where
  pub service_type : String
  pub instance_statuses : List ServiceInstanceStatus
  pub is_connected : Bool
  pub connected_instance_count : ℕ

-- The constructor of `ServiceStatus` counts the instances that are connected.
unfoldable pub new_service_status : String → List ServiceInstanceStatus → Bool → ServiceStatus
unfolding filter
new_service_status type statuses connected = record {
  service_type = type;
  instance_statuses = statuses;
  is_connected = connected;
  connected_instance_count = length (filter (λ s. s.is_connected) statuses);
}

unfoldable pub get_instance_status : ServiceStatus → String → Option ServiceInstanceStatus
unfolding find
get_instance_status s id = find (λ i. i.service_id === id) s.instance_statuses
