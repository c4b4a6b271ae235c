-- ===== src/System/Service/Client/Connecting.antt =====
-- A client that is connected hears of everything once.
use reactive_trader_cloud.Common.{String, true, List, [], ◌∷◌, ◌++◌, map, ◌≡◌, refl}
use reactive_trader_cloud.System.Service.Instances
use reactive_trader_cloud.System.Service.Instances.{Instances}
use reactive_trader_cloud.System.Service.Client.{
  ServiceClient, ClientEvent, connects, arrives, new_client, connect, client_run,
}

-- What arrives among the calls of `connect`.
abbrev pub heard : List ClientEvent → List Instances.Event
heard [] = []
heard (connects ∷ events) = heard events
heard (arrives e ∷ events) = e ∷ heard events

abbrev connected_with : Instances → ServiceClient
connected_with s = record { is_connect_called = true; subscriptions = 1; instances = s }

module _ (service_type : String) where
  client_run-connected :
      (s : Instances) (events : List ClientEvent)
      → client_run service_type (connected_with s) events
        ≡ connected_with (Instances.run service_type s (heard events))
  unfolding client_run connect Instances.run
  client_run-connected s [] = refl
  client_run-connected s (connects ∷ events) = client_run-connected s events
  client_run-connected s (arrives e ∷ events) =
      client_run-connected (Instances.step service_type s e) events

  -- A client subscribes once, however often `connect` is called; what arrives before the first call is
  -- lost, and all that arrives after it reaches the dictionary of the instances.
  pub client_run-new_client :
      (before : List Instances.Event) (after : List ClientEvent)
      → client_run service_type new_client (map arrives before ++ connects ∷ after) ≡ record {
        is_connect_called = true;
        subscriptions = 1;
        instances = Instances.run service_type Instances.created (heard after);
      }
  unfolding client_run new_client connect
  client_run-new_client [] after = client_run-connected Instances.created after
  client_run-new_client (e ∷ before) after = client_run-new_client before after
