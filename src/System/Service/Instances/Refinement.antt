-- ===== src/System/Service/Instances/Refinement.antt =====
-- The dictionary of a service's instances against the plain account of which of them are alive.
use reactive_trader_cloud.Common.{
  ◌≡◌, ◌≢◌, refl, sym, ap, ◌∙◌, String, true, false, Option, none, some, List, [], ◌∷◌, ◌===◌, All,
  arith, eq_iff, Bool-cases, inl, inr, subst,
}
use reactive_trader_cloud.Common.Dict.{Dict, lookup}
use reactive_trader_cloud.System.Service.Status.{
  ServiceInstanceStatus, create_for_connected, create_for_disconnected,
}
use reactive_trader_cloud.System.Service.Dictionary.{LastValueObservableDictionary, empty}
use reactive_trader_cloud.System.Service.Instances.{
  Heartbeat, Event, connection, heartbeat, missed, Key, Group, Phase, waiting, running, Instances,
  created, failed, on_status, on_heartbeat, on_missed, step, run,
}
use reactive_trader_cloud.System.Service.Instances.Account.{
  Fleet, grounded, is_alive, account_step, account, seen, group_of, RefinesPhase, Refines, IsNamed,
}
use reactive_trader_cloud.System.Service.Instances.Groups.{on_status-Refines}

seen-empty : (k : String) → seen k empty ≡ none
unfolding empty lookup
seen-empty k = refl

failed-Refines : Refines failed grounded
unfolding failed RefinesPhase
failed-Refines = (refl, (λ k. refl), refl)

abbrev connected_status : String → Heartbeat → ServiceInstanceStatus
connected_status type h = record {
  service_type = type;
  service_id = h.instance_id;
  timestamp = some h.timestamp;
  service_load = some h.load;
  is_connected = true;
}

abbrev disconnected_status : String → String → ServiceInstanceStatus
disconnected_status type id = record {
  service_type = type;
  service_id = id;
  timestamp = none;
  service_load = none;
  is_connected = false;
}

alive-group :
    (o : Option Key)
    → is_alive o ≡ true
    → (g : Group) × (group_of o ≡ some g) × (g.is_timing ≡ true)
alive-group none e = cc
alive-group (some key) e = (record { key = key; is_timing = key.is_connected }, refl, e)

module _ (type : String) (named : type ≢ "") where
  on_heartbeat_eq :
      (h : Heartbeat) (groups : Dict Group) (d : LastValueObservableDictionary String)
      (s : Instances)
      → h.instance_id ≢ ""
      → (h.type === type) ≡ true
      → on_heartbeat type h groups d s ≡ on_status (connected_status h.type h) true groups d s
  unfolding on_heartbeat create_for_connected
  on_heartbeat_eq h groups d s n e =
      ground (arith, eq_iff h.type type, eq_iff h.type "", eq_iff h.instance_id "")

  on_missed_eq :
      (id : String) (groups : Dict Group) (d : LastValueObservableDictionary String) (s : Instances)
      (g : Group)
      → id ≢ ""
      → lookup id groups ≡ some g
      → g.is_timing ≡ true
      → on_missed type id groups d s ≡ on_status (disconnected_status type id) false groups d s
  unfolding on_missed create_for_disconnected
  on_missed_eq id groups d s g n e t = ground (arith, eq_iff type "", eq_iff id "")

  on_missed_nothing :
      (id : String) (groups : Dict Group) (d : LastValueObservableDictionary String) (s : Instances)
      (o : Option Key)
      → lookup id groups ≡ group_of o
      → is_alive o ≡ false
      → on_missed type id groups d s ≡ s
  unfolding on_missed
  on_missed_nothing id groups d s none e a = ground arith
  on_missed_nothing id groups d s (some key) e a = ground arith

  on_heartbeat_other :
      (h : Heartbeat) (groups : Dict Group) (d : LastValueObservableDictionary String)
      (s : Instances)
      → (h.type === type) ≡ false
      → on_heartbeat type h groups d s ≡ s
  unfolding on_heartbeat
  on_heartbeat_other h groups d s e = ground arith

  -- An event that changes neither side.
  kept :
      (groups : Dict Group) (d : LastValueObservableDictionary String) (s s' : Instances)
      (f f' : Fleet)
      → s.phase ≡ running groups d
      → RefinesPhase (running groups d) s.value f
      → s' ≡ s
      → f' ≡ f
      → Refines s' f'
  kept groups d s s' f f' p r e e' =
      subst (λ x. Refines x f') (sym e)
        (subst (Refines s) (sym e') (subst (λ x. RefinesPhase x s.value f) (sym p) r))

  on_heartbeat-Refines :
      (h : Heartbeat) (groups : Dict Group) (d : LastValueObservableDictionary String)
      (s : Instances) (f : Fleet)
      → h.instance_id ≢ ""
      → s.phase ≡ running groups d
      → RefinesPhase (running groups d) s.value f
      → Refines (on_heartbeat type h groups d s) (account_step type f (heartbeat h))
  unfolding RefinesPhase
  on_heartbeat-Refines h groups d s f n p (up, same, sees, held) =
      elim (Bool-cases (h.type === type)) [
        | inl e ↦
            subst (λ x. Refines x (account_step type f (heartbeat h)))
              (sym (on_heartbeat_eq h groups d s n e))
              (subst (Refines (on_status (connected_status h.type h) true groups d s))
                (ground arith)
                (on_status-Refines (connected_status h.type h) groups d s f up same sees held))
        | inr e ↦
            kept groups d s (on_heartbeat type h groups d s) f (account_step type f (heartbeat h)) p
              (up, same, sees, held) (on_heartbeat_other h groups d s e) (ground arith)
      ]

  on_missed-Refines :
      (id : String) (groups : Dict Group) (d : LastValueObservableDictionary String) (s : Instances)
      (f : Fleet)
      → id ≢ ""
      → s.phase ≡ running groups d
      → RefinesPhase (running groups d) s.value f
      → Refines (on_missed type id groups d s) (account_step type f (missed id))
  unfolding RefinesPhase
  on_missed-Refines id groups d s f n p (up, same, sees, held) =
      elim (Bool-cases (is_alive (f.instance id))) [
        | inl e ↦
            let (g, q, t) = alive-group (f.instance id) e in
            subst (λ x. Refines x (account_step type f (missed id)))
              (sym (on_missed_eq id groups d s g n (held id ∙ q) t))
              (subst (Refines (on_status (disconnected_status type id) false groups d s))
                (ground arith)
                (on_status-Refines (disconnected_status type id) groups d s f up same sees held))
        | inr e ↦
            kept groups d s (on_missed type id groups d s) f (account_step type f (missed id)) p
              (up, same, sees, held) (on_missed_nothing id groups d s (f.instance id) (held id) e)
              (ground arith)
      ]

  -- Every event of the service keeps the dictionary to the account.
  step-Refines :
      (event : Event) (p : Phase) (v : LastValueObservableDictionary String) (f : Fleet)
      → IsNamed event
      → RefinesPhase p v f
      → Refines (step type (record { phase = p; value = v }) event) (account_step type f event)
  unfolding RefinesPhase step
  step-Refines (connection true) waiting v f n (down, known, e) =
      subst (RefinesPhase (running [] empty) v) (ground arith) (refl, e, seen-empty, λ k. refl)
  step-Refines (connection false) waiting v f n (down, known, e) = (refl, (λ k. refl), e)
  step-Refines (heartbeat h) waiting v f n (down, known, e) =
      subst (RefinesPhase waiting v) (ground arith) (down, known, e)
  step-Refines (missed id) waiting v f n (down, known, e) =
      subst (RefinesPhase waiting v) (ground arith) (down, known, e)
  step-Refines (connection true) (running groups d) v f n r =
      subst (RefinesPhase (running groups d) v) (ground arith) r
  step-Refines (connection false) (running groups d) v f n r = failed-Refines
  step-Refines (heartbeat h) (running groups d) v f n r =
      on_heartbeat-Refines h groups d (record { phase = running groups d; value = v }) f n refl r
  step-Refines (missed id) (running groups d) v f n r =
      on_missed-Refines id groups d (record { phase = running groups d; value = v }) f n refl r

  run-Refines :
      (s : Instances) (f : Fleet) (events : List Event)
      → All IsNamed events
      → Refines s f
      → Refines (run type s events) (account type f events)
  unfolding run
  run-Refines s f [] n r = r
  run-Refines s f (event ∷ events) n r =
      run-Refines (step type s event) (account_step type f event) events n.1
        (step-Refines event s.phase s.value f n.0 r)

seen-RefinesPhase :
    (k : String) (p : Phase) (v : LastValueObservableDictionary String) (f : Fleet)
    → RefinesPhase p v f
    → seen k v ≡ f.instance k
unfolding RefinesPhase
seen-RefinesPhase k waiting v f (down, known, e) = ap (seen k) e ∙ seen-empty k ∙ sym (known k)
seen-RefinesPhase k (running groups d) v f (up, same, sees, held) = ap (seen k) same ∙ sees k

-- After any sequence of changes of the connection, heartbeats and ends of due times, all with the ids of
-- their instances, the dictionary that the operations of a named service choose from says of each
-- instance what the plain account of the events says: nothing without a connection or before its
-- first heartbeat, else whether it is alive and the load of its last heartbeat.
pub seen-run :
    (type : String) (events : List Event) (k : String)
    → type ≢ ""
    → All IsNamed events
    → seen k (run type created events).value ≡ (account type grounded events).instance k
unfolding created RefinesPhase
seen-run type events k named n =
    let r = run-Refines type named created grounded events n (refl, (λ k. refl), refl) in
    seen-RefinesPhase k (run type created events).phase (run type created events).value
      (account type grounded events) r
