-- ===== src/System/Service/Instances/Account.antt =====
-- The plain account of which instances of a service are alive, and how the state refines it.
use reactive_trader_cloud.Common.{
  ◌≡◌, String, Bool, true, false, ◌&&◌, Option, none, some, List, [], ◌∷◌, ◌===◌, if◌then◌else◌,
  ◌≢◌,
}
use reactive_trader_cloud.Common.Dict.{lookup}
use reactive_trader_cloud.System.Service.Status.{ServiceInstanceStatus}
use reactive_trader_cloud.System.Service.Dictionary.{LastValueObservableDictionary, empty}
use reactive_trader_cloud.System.Service.Dictionary.Laws.{latest_of}
use reactive_trader_cloud.System.Service.Instances.{
  Event, connection, heartbeat, missed, Key, Group, Phase, waiting, running, Instances, key_of,
}

-- Whether the connection is up, and what is known of each instance since then.
pub record Fleet : Type 0 where
  pub is_up : Bool
  pub instance : String → Option Key

abbrev pub grounded : Fleet
grounded = record { is_up = false; instance = λ k. none }

abbrev pub know : String → Key → Fleet → Fleet
know id key f = record f { instance = λ k. if id === k then some key else f.instance k }

abbrev pub is_alive : Option Key → Bool
is_alive none = false
is_alive (some key) = key.is_connected

-- A heartbeat makes its instance alive with its load, a missed one ends an instance that is alive,
-- and without a connection nothing is known.
abbrev pub account_step : String → Fleet → Event → Fleet
account_step type f (connection true) =
    if f.is_up then f else record { is_up = true; instance = λ k. none }
account_step type f (connection false) = grounded
account_step type f (heartbeat h) =
    if f.is_up && h.type === type
    then know h.instance_id (record { is_connected = true; load = some h.load }) f
    else f
account_step type f (missed id) =
    if f.is_up && is_alive (f.instance id)
    then know id (record { is_connected = false; load = none }) f
    else f

abbrev pub account : String → Fleet → List Event → Fleet
account type f [] = f
account type f (event ∷ events) = account type (account_step type f event) events

-- What the dictionary says of an instance.
abbrev pub read_key : Option ServiceInstanceStatus → Option Key
read_key none = none
read_key (some s) = some (key_of s)

abbrev pub seen : String → LastValueObservableDictionary String → Option Key
seen k d = read_key (latest_of k d)

abbrev pub group_of : Option Key → Option Group
group_of none = none
group_of (some key) = some (record { key = key; is_timing = key.is_connected })

-- A dictionary that waits for the connection is empty; one that runs agrees with the account, and so do
-- the streams of its instances.
unfoldable pub RefinesPhase : Phase → LastValueObservableDictionary String → Fleet → Type 0
RefinesPhase waiting value f =
    (f.is_up ≡ false) × ((k : String) → f.instance k ≡ none) × (value ≡ empty)
RefinesPhase (running groups d) value f =
    (f.is_up ≡ true)
    × (value ≡ d)
    × ((k : String) → seen k d ≡ f.instance k)
    × ((k : String) → lookup k groups ≡ group_of (f.instance k))

abbrev pub Refines : Instances → Fleet → Type 0
Refines s f = RefinesPhase s.phase s.value f

-- The events name their instances.
abbrev pub IsNamed : Event → Type 0
IsNamed (connection b) = Unit
IsNamed (heartbeat h) = h.instance_id ≢ ""
IsNamed (missed id) = id ≢ ""
