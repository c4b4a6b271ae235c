-- ===== src/System/Service/Instances.antt =====
-- `_createServiceInstanceDictionaryStream` of src/client/src/system/service/serviceClient.js, with the
-- operators of serviceObservableExtensions.js that it chains: the heartbeats of a service, grouped by
-- instance, as the dictionary that the operations choose from. The value of the multicast's behaviour
-- subject is a part of the state.
pub mod Account
pub mod Emission
pub mod Liveness
mod Groups
mod Refinement
mod Tests
use reactive_trader_cloud.Common.{
  ℕ, String, Bool, true, false, ◌&&◌, Option, none, some, List, [], ◌∷◌, ◌===◌, ◌==◌, if◌then◌else◌,
}
use reactive_trader_cloud.Common.Dict.{Dict, lookup, insert}
use reactive_trader_cloud.Common.Result.{Result, returns, throws}
use reactive_trader_cloud.System.Service.Status.{
  ServiceInstanceStatus, create_for_connected, create_for_disconnected,
}
use reactive_trader_cloud.System.Service.Dictionary.{LastValueObservableDictionary, empty, on_value}

-- A message on the topic `status`.
pub record Heartbeat : Type 0 where
  pub type : String
  pub instance_id : String
  pub timestamp : ℕ
  pub load : ℕ

-- The connection's status, a heartbeat, or the end of an instance's due time without one.
pub data Event : Type 0 where
  connection : Bool → Event
  heartbeat : Heartbeat → Event
  missed : String → Event

-- What `distinctUntilChangedGroup` compares; the type and the id are those of the group.
pub record Key : Type 0 where
  pub is_connected : Bool
  pub load : Option ℕ

-- The stream of an instance: the key that it passed on last, and whether its due time is running.
pub record Group : Type 0 where
  pub key : Key
  pub is_timing : Bool

-- Waiting for the connection, or subscribed to the heartbeats, by the id of the group's stream.
pub data Phase : Type 0 where
  waiting : Phase
  running : Dict Group → LastValueObservableDictionary String → Phase

pub record Instances : Type 0 where
  pub phase : Phase
  pub value : LastValueObservableDictionary String

unfoldable pub created : Instances
unfolding empty
created = record { phase = waiting; value = empty }

abbrev pub same_load : Option ℕ → Option ℕ → Bool
same_load none none = true
same_load (some a) (some b) = a == b
same_load _ _ = false

abbrev pub same_flag : Bool → Bool → Bool
same_flag true b = b
same_flag false true = false
same_flag false false = true

abbrev pub same_key : Key → Key → Bool
same_key a b = same_flag a.is_connected b.is_connected && same_load a.load b.load

abbrev pub key_of : ServiceInstanceStatus → Key
key_of s = record { is_connected = s.is_connected; load = s.service_load }

-- The stream ends with the connection: an empty dictionary, and the next connection is waited for.
unfoldable pub failed : Instances
unfolding empty
failed = record { phase = waiting; value = empty }

-- The stream ends with the error of a heartbeat: an empty dictionary too, and the repeated stream
-- finds the connection still there.
unfoldable pub restarted : Instances
unfolding empty
restarted = record { phase = running [] empty; value = empty }

-- A status that its group lets through reaches the dictionary, which is passed on. An error of the
-- dictionary would be thrown at the source of the status.
unfoldable pub collect_status :
    String
    → ServiceInstanceStatus
    → Dict Group
    → Instances
    → LastValueObservableDictionary String
    → Instances
unfolding on_value
collect_status id status groups s d = elim (on_value id status d) [
  | none ↦ record s { phase = running groups d }
  | some d' ↦ record { phase = running groups d'; value = d' }
]

-- A status in the group of its instance, which is new if there is none; the flag says whether the due
-- time starts again.
unfoldable pub on_status :
    ServiceInstanceStatus
    → Bool
    → Dict Group
    → LastValueObservableDictionary String
    → Instances
    → Instances
unfolding lookup insert collect_status
on_status status timing groups d s =
    let id = status.service_id in
    let groups' = insert id (record { key = key_of status; is_timing = timing }) groups in
    elim (lookup id groups) [
      | none ↦ collect_status id status groups' s d
      | some g ↦
          if same_key g.key (key_of status)
          then record s { phase = running groups' d }
          else collect_status id status groups' s d
    ]

module _ (service_type : String) where
  unfoldable pub on_heartbeat :
      Heartbeat → Dict Group → LastValueObservableDictionary String → Instances → Instances
  unfolding create_for_connected on_status restarted
  on_heartbeat h groups d s =
      if h.type === service_type
      then elim (create_for_connected h.type h.instance_id h.timestamp h.load) [
        | throws message ↦ restarted
        | returns status ↦ on_status status true groups d s
      ]
      else s

  -- An error of the selector would be thrown at the timer, which has run out.
  unfoldable pub on_missed :
      String → Dict Group → LastValueObservableDictionary String → Instances → Instances
  unfolding create_for_disconnected on_status lookup insert
  on_missed id groups d s = elim (lookup id groups) [
    | none ↦ s
    | some g ↦
        if g.is_timing
        then elim (create_for_disconnected service_type id) [
          | throws message ↦ record s {
            phase = running (insert id (record g { is_timing = false }) groups) d;
          }
          | returns status ↦ on_status status false groups d s
        ]
        else s
  ]

  unfoldable pub step : Instances → Event → Instances
  unfolding on_heartbeat on_missed failed empty
  step s event = elim s.phase [
    | waiting ↦ elim event [ connection true ↦ record s { phase = running [] empty } | _ ↦ s ]
    | running groups d ↦ elim event [
      | connection true ↦ s
      | connection false ↦ failed
      | heartbeat h ↦ on_heartbeat h groups d s
      | missed id ↦ on_missed id groups d s
    ]
  ]

  unfoldable pub run : Instances → List Event → Instances
  unfolding step
  run s [] = s
  run s (event ∷ events) = run (step s event) events
