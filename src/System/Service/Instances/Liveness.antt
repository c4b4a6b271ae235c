-- ===== src/System/Service/Instances/Liveness.antt =====
-- What the summary of a service's dictionary says of its instances.
use reactive_trader_cloud.Common.{
  ◌≡◌, ◌≢◌, ◌↔◌, ◌⊎◌, sym, subst, String, Bool, true, false, some, List, [], ◌∷◌, ◌===◌, arith, All,
  Option-cases, Bool-cases, inl, inr,
}
use reactive_trader_cloud.Common.Dict.{Dict, lookup, insert, Distinct}
use reactive_trader_cloud.Common.Dict.Values.{lookup-any, any-lookup}
use reactive_trader_cloud.Common.Result.{Result-cases}
use reactive_trader_cloud.System.Service.Status.{
  ServiceInstanceStatus, create_for_connected, create_for_disconnected,
}
use reactive_trader_cloud.System.Service.Dictionary.{
  LastValueObservableDictionary, empty, on_value, create_service_status,
}
use reactive_trader_cloud.System.Service.Dictionary.Laws.{on_value-IsNext}
use reactive_trader_cloud.System.Service.Instances.{
  Event, connection, heartbeat, missed, Group, Phase, waiting, running, Instances, same_key, key_of,
  created, failed, restarted, collect_status, on_status, on_heartbeat, on_missed, step, run,
  Heartbeat,
}
use reactive_trader_cloud.System.Service.Instances.Account.{
  grounded, is_alive, account, seen, IsNamed,
}
use reactive_trader_cloud.System.Service.Instances.Refinement.{seen-run}

-- Neither the dictionary in use nor the one that was passed on last stores an instance twice.
abbrev IsDistinctPhase : Phase → Type 0
IsDistinctPhase waiting = Unit
IsDistinctPhase (running groups d) = Distinct d.values

abbrev IsDistinct : Instances → Type 0
IsDistinct s = IsDistinctPhase s.phase × Distinct s.value.values

collect_status_stored :
    (id : String) (v : ServiceInstanceStatus) (groups : Dict Group) (s : Instances)
    (d d' : LastValueObservableDictionary String)
    → on_value id v d ≡ some d'
    → collect_status id v groups s d ≡ record { phase = running groups d'; value = d' }
unfolding collect_status
collect_status_stored id v groups s d d' e = ground arith

collect_status-IsDistinct :
    (id : String) (v : ServiceInstanceStatus) (groups : Dict Group) (s : Instances)
    (d : LastValueObservableDictionary String)
    → Distinct d.values
    → IsDistinct (collect_status id v groups s d)
collect_status-IsDistinct id v groups s d h =
    let (d', e, n) = on_value-IsNext id v d in
    subst IsDistinct (sym (collect_status_stored id v groups s d d' e)) (n.distinct h, n.distinct h)

on_status_cases :
    (v : ServiceInstanceStatus) (timing : Bool) (groups : Dict Group)
    (d : LastValueObservableDictionary String) (s : Instances)
    → (groups' : Dict Group) × ((on_status v timing groups d s
          ≡ record s { phase = running groups' d })
        ⊎ (on_status v timing groups d s ≡ collect_status v.service_id v groups' s d))
unfolding on_status
on_status_cases v timing groups d s =
    let groups' : Dict Group =
      insert v.service_id (record { key = key_of v; is_timing = timing }) groups in
    elim (Option-cases (lookup v.service_id groups)) [
      | inl e ↦ (groups', inr (ground arith))
      | inr (g, e) ↦ elim (Bool-cases (same_key g.key (key_of v))) [
        | inl t ↦ (groups', inl (ground arith))
        | inr t ↦ (groups', inr (ground arith))
      ]
    ]

on_status-IsDistinct :
    (v : ServiceInstanceStatus) (timing : Bool) (groups : Dict Group)
    (d : LastValueObservableDictionary String) (s : Instances)
    → Distinct d.values
    → Distinct s.value.values
    → IsDistinct (on_status v timing groups d s)
on_status-IsDistinct v timing groups d s h k =
    let (groups', cases) = on_status_cases v timing groups d s in
    elim cases [
      | inl e ↦ subst IsDistinct (sym e) (h, k)
      | inr e ↦ subst IsDistinct (sym e) (collect_status-IsDistinct v.service_id v groups' s d h)
    ]

module _ (type : String) where
  on_heartbeat-IsDistinct :
      (h : Heartbeat) (groups : Dict Group) (d v : LastValueObservableDictionary String)
      → Distinct d.values
      → Distinct v.values
      → IsDistinct (on_heartbeat type h groups d (record { phase = running groups d; value = v }))
  unfolding on_heartbeat restarted empty
  on_heartbeat-IsDistinct h groups d v hd hv =
      let s : Instances = record { phase = running groups d; value = v } in
      elim (Bool-cases (h.type === type)) [
        | inl e ↦
            rw e
              (elim (Result-cases (create_for_connected h.type h.instance_id h.timestamp h.load)) [
                | inl (x, r) ↦ rw r (on_status-IsDistinct x true groups d s hd hv)
                | inr (x, r) ↦ rw r (tt, tt)
              ])
        | inr e ↦ rw e (hd, hv)
      ]

  on_missed-IsDistinct :
      (id : String) (groups : Dict Group) (d v : LastValueObservableDictionary String)
      → Distinct d.values
      → Distinct v.values
      → IsDistinct (on_missed type id groups d (record { phase = running groups d; value = v }))
  unfolding on_missed
  on_missed-IsDistinct id groups d v hd hv =
      let s : Instances = record { phase = running groups d; value = v } in
      elim (Option-cases (lookup id groups)) [
        | inl e ↦ rw (on_missed, e) (hd, hv)
        | inr (g, e) ↦ elim (Bool-cases g.is_timing) [
          | inl t ↦
              rw (on_missed, e, t)
                (elim (Result-cases (create_for_disconnected type id)) [
                  | inl (x, r) ↦ rw r (on_status-IsDistinct x false groups d s hd hv)
                  | inr (x, r) ↦ rw r (hd, hv)
                ])
          | inr t ↦ rw (on_missed, e, t) (hd, hv)
        ]
      ]

  step-IsDistinct :
      (p : Phase) (v : LastValueObservableDictionary String) (event : Event)
      → IsDistinctPhase p
      → Distinct v.values
      → IsDistinct (step type (record { phase = p; value = v }) event)
  unfolding step failed empty
  step-IsDistinct waiting v (connection true) hd hv = (tt, hv)
  step-IsDistinct waiting v (connection false) hd hv = (tt, hv)
  step-IsDistinct waiting v (heartbeat h) hd hv = (tt, hv)
  step-IsDistinct waiting v (missed id) hd hv = (tt, hv)
  step-IsDistinct (running groups d) v (connection true) hd hv = (hd, hv)
  step-IsDistinct (running groups d) v (connection false) hd hv = (tt, tt)
  step-IsDistinct (running groups d) v (heartbeat h) hd hv =
      on_heartbeat-IsDistinct h groups d v hd hv
  step-IsDistinct (running groups d) v (missed id) hd hv = on_missed-IsDistinct id groups d v hd hv

  run-IsDistinct :
      (events : List Event) (s : Instances) → IsDistinct s → IsDistinct (run type s events)
  unfolding run
  run-IsDistinct [] s h = h
  run-IsDistinct (event ∷ events) s h =
      run-IsDistinct events (step type s event) (step-IsDistinct s.phase s.value event h.0 h.1)

-- The summary of a dictionary is connected exactly if the dictionary knows an instance that is alive.
connected-seen :
    (type : String) (d : LastValueObservableDictionary String)
    → Distinct d.values
    → ((create_service_status type d).is_connected ≡ true)
      ↔ ((k : String) × (is_alive (seen k d) ≡ true))
unfolding create_service_status
connected-seen type d distinct = (
  (λ h.
      let (k, o, e, c) = any-lookup (λ o. o.latest_value.is_connected) d.values distinct h in
      (k, ground arith)),
  λ (k, h). elim (Option-cases (lookup k d.values)) [
    | inl e ↦ absurd (ground arith)
    | inr (o, e) ↦ lookup-any (λ o. o.latest_value.is_connected) d.values k o e (ground arith)
  ],
)

-- After any sequence of changes of the connection, heartbeats and ends of due times, all with the ids
-- of their instances, the status that a named service's client publishes says that the service is
-- connected exactly if some instance is alive by the plain account of the events.
pub connected-run :
    (type : String) (events : List Event)
    → type ≢ ""
    → All IsNamed events
    → ((create_service_status type (run type created events).value).is_connected ≡ true)
      ↔ ((k : String) × (is_alive ((account type grounded events).instance k) ≡ true))
unfolding created empty
connected-run type events named n =
    let s : Instances = run type created events in
    let (h, distinct) = run-IsDistinct type events created (tt, tt) in
    let (to, from) = connected-seen type s.value distinct in
    (
      (λ c.
          let (k, a) = to c in
          (k, subst (λ o. is_alive o ≡ true) (seen-run type events k named n) a)),
      λ (k, a). from (k, subst (λ o. is_alive o ≡ true) (sym (seen-run type events k named n)) a),
    )
