-- ===== src/System/Service/Instances/Emission.antt =====
-- Which events of a service make the stream of its dictionary pass a value on: `o.onNext` of
-- `toServiceStatusObservableDictionary`, behind `distinctUntilChangedGroup`, and the empty dictionary
-- that `catch` continues with, all in src/client/src/system/service.
use reactive_trader_cloud.Common.{
  ◌≡◌, refl, String, Bool, true, false, not, none, some, ◌===◌, if◌then◌else◌, arith, Option-cases,
  Bool-cases, inl, inr,
}
use reactive_trader_cloud.Common.Dict.{Dict, lookup}
use reactive_trader_cloud.Common.Result.{returns, throws}
use reactive_trader_cloud.System.Service.Status.{
  ServiceInstanceStatus, create_for_connected, create_for_disconnected,
}
use reactive_trader_cloud.System.Service.Dictionary.{LastValueObservableDictionary}
use reactive_trader_cloud.System.Service.Instances.{
  Event, connection, heartbeat, missed, Group, Phase, waiting, running, Instances, same_key, key_of,
  on_status, on_heartbeat, on_missed, step, Heartbeat,
}

-- A group lets a status through if it is its first or differs from the last one that it let through.
unfoldable pub is_let_through : ServiceInstanceStatus → Dict Group → Bool
unfolding lookup
is_let_through status groups = elim (lookup status.service_id groups) [
  | none ↦ true
  | some g ↦ not (same_key g.key (key_of status))
]

unfoldable pub is_passed_on : String → Instances → Event → Bool
unfolding is_let_through lookup create_for_connected create_for_disconnected
is_passed_on type s event = elim s.phase [
  | waiting ↦ false
  | running groups d ↦ elim event [
    | connection is_up ↦ not is_up
    | heartbeat h ↦
        if h.type === type
        then elim (create_for_connected h.type h.instance_id h.timestamp h.load) [
          | throws message ↦ true
          | returns status ↦ is_let_through status groups
        ]
        else false
    | missed id ↦ elim (lookup id groups) [
      | none ↦ false
      | some g ↦
          if g.is_timing
          then elim (create_for_disconnected type id) [
            | throws message ↦ false
            | returns status ↦ is_let_through status groups
          ]
          else false
    ]
  ]
]

on_status-quiet :
    (status : ServiceInstanceStatus) (timing : Bool) (groups : Dict Group)
    (d : LastValueObservableDictionary String) (s : Instances)
    → is_let_through status groups ≡ false
    → (on_status status timing groups d s).value ≡ s.value
unfolding is_let_through on_status
on_status-quiet status timing groups d s h = ground arith

module _ (type : String) where
  on_heartbeat-quiet :
      (h : Heartbeat) (groups : Dict Group) (d v : LastValueObservableDictionary String)
      → is_passed_on type (record { phase = running groups d; value = v }) (heartbeat h) ≡ false
      → (on_heartbeat type h groups d (record { phase = running groups d; value = v })).value ≡ v
  unfolding is_passed_on on_heartbeat
  on_heartbeat-quiet h groups d v q = elim (Bool-cases (h.type === type)) [
    | inl e ↦ ground (
      arith,
      λ (x : ServiceInstanceStatus).
          on_status-quiet x true groups d (record { phase = running groups d; value = v }),
    )
    | inr e ↦ ground arith
  ]

  on_missed-quiet :
      (id : String) (groups : Dict Group) (d v : LastValueObservableDictionary String)
      → is_passed_on type (record { phase = running groups d; value = v }) (missed id) ≡ false
      → (on_missed type id groups d (record { phase = running groups d; value = v })).value ≡ v
  unfolding is_passed_on on_missed
  on_missed-quiet id groups d v q = elim (Option-cases (lookup id groups)) [
    | inl e ↦ ground arith
    | inr (g, e) ↦ ground (
      arith,
      λ (x : ServiceInstanceStatus).
          on_status-quiet x false groups d (record { phase = running groups d; value = v }),
    )
  ]

  -- An event that passes nothing on leaves the value as it is.
  pub value-step :
      (p : Phase) (v : LastValueObservableDictionary String) (event : Event)
      → is_passed_on type (record { phase = p; value = v }) event ≡ false
      → (step type (record { phase = p; value = v }) event).value ≡ v
  unfolding is_passed_on step
  value-step waiting v (connection true) q = refl
  value-step waiting v (connection false) q = refl
  value-step waiting v (heartbeat h) q = refl
  value-step waiting v (missed id) q = refl
  value-step (running groups d) v (connection true) q = refl
  value-step (running groups d) v (connection false) q = absurd (ground arith)
  value-step (running groups d) v (heartbeat h) q = on_heartbeat-quiet h groups d v q
  value-step (running groups d) v (missed id) q = on_missed-quiet id groups d v q
