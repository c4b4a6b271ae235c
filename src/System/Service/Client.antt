-- ===== src/System/Service/Client.antt =====
-- `connect` of src/client/src/system/service/serviceClient.js: the stream of the instances' dictionary,
-- which is shared, hears of nothing before it is connected.
mod Connecting
mod Tests
use reactive_trader_cloud.Common.{ℕ, suc, String, Bool, true, false, List, [], ◌∷◌, if◌then◌else◌}
use reactive_trader_cloud.System.Service.Instances
use reactive_trader_cloud.System.Service.Instances.{Instances}

pub record ServiceClient : Type 0 where
  pub is_connect_called : Bool
  pub subscriptions : ℕ  -- to the stream of the connection and of the heartbeats
  pub instances : Instances

pub data ClientEvent : Type 0 where
  connects : ClientEvent
  arrives : Instances.Event → ClientEvent

unfoldable pub new_client : ServiceClient
unfolding Instances.created
new_client = record { is_connect_called = false; subscriptions = 0; instances = Instances.created }

-- What arrives while nothing is subscribed is lost; the stream of the connection gives its last status
-- again to a new subscription, as an event after the call.
unfoldable pub connect : ServiceClient → ServiceClient
connect c =
    if c.is_connect_called
    then c
    else record c { is_connect_called = true; subscriptions = suc c.subscriptions }

module _ (service_type : String) where
  unfoldable pub client_step : ServiceClient → ClientEvent → ServiceClient
  unfolding connect Instances.step
  client_step c connects = connect c
  client_step c (arrives e) =
      if c.is_connect_called
      then record c { instances = Instances.step service_type c.instances e }
      else c

  unfoldable pub client_run : ServiceClient → List ClientEvent → ServiceClient
  unfolding client_step
  client_run c [] = c
  client_run c (event ∷ events) = client_run (client_step c event) events
