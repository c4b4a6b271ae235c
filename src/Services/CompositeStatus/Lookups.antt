-- ===== src/Services/CompositeStatus/Lookups.antt =====
-- The lookup of the statuses agrees with the clients of the services at every moment.
use reactive_trader_cloud.Common.{
  ◌≡◌, refl, sym, ap, ◌∙◌, subst, String, true, false, some, List, [], ◌∷◌, map, fold, ◌===◌,
  if◌then◌else◌, arith, eq_iff, eq_refl, Bool-cases, inl, inr,
}
use reactive_trader_cloud.Common.Dict.{
  Dict, insert, lookup, Distinct, insert-Distinct, lookup-insert,
}
use reactive_trader_cloud.System.Service.Status.{ServiceStatus, new_service_status}
use reactive_trader_cloud.System.Service.Dictionary.{create_service_status}
use reactive_trader_cloud.System.Service.Instances
use reactive_trader_cloud.System.Service.Instances.{Instances}
use reactive_trader_cloud.System.Service.Instances.Emission.{value-step}
use reactive_trader_cloud.Services.CompositeStatus.{
  WellKnownService, pricing, reference, blotter, execution, analytics, service_key,
  update_service_status, lookup_after, CompositeStatusService, merged, status_of, start,
  instances_after, publishes, receive,
}

pub lookup_after-Distinct :
    (services : Dict ServiceStatus) (statuses : List ServiceStatus)
    → Distinct services
    → Distinct (lookup_after services statuses)
unfolding lookup_after update_service_status fold
lookup_after-Distinct services [] d = d
lookup_after-Distinct services (s ∷ ss) d =
    lookup_after-Distinct (update_service_status services s) ss
      (insert-Distinct s.service_type s services d)

-- The lookup holds the status of every client, and no other.
pub record IsCurrent (instances : WellKnownService → Instances) (services : Dict ServiceStatus)
    : Type 0 where
  pub held : (w : WellKnownService) → lookup (service_key w) services ≡ some (status_of instances w)
  pub known :
      (k : String) (s : ServiceStatus)
      → lookup k services ≡ some s
      → (w : WellKnownService) × (service_key w ≡ k)
  pub distinct : Distinct services

status_of-type :
    (instances : WellKnownService → Instances) (w : WellKnownService)
    → (status_of instances w).service_type ≡ service_key w
unfolding status_of create_service_status new_service_status
status_of-type instances w = refl

abbrev IsKnown : Dict ServiceStatus → Type 0
IsKnown services =
    (k : String) (s : ServiceStatus)
    → lookup k services ≡ some s
    → (w : WellKnownService) × (service_key w ≡ k)

update-IsKnown :
    (services : Dict ServiceStatus) (w : WellKnownService) (s : ServiceStatus)
    → s.service_type ≡ service_key w
    → IsKnown services
    → IsKnown (update_service_status services s)
unfolding update_service_status
update-IsKnown services w s t h k x e = elim (Bool-cases (s.service_type === k)) [
  | inl b ↦ (w, sym t ∙ (eq_iff s.service_type k).0 b)
  | inr b ↦ h k x (ground (arith, lookup-insert k s.service_type s services))
]

lookup_after-IsKnown :
    (instances : WellKnownService → Instances) (ws : List WellKnownService)
    (services : Dict ServiceStatus)
    → IsKnown services
    → IsKnown (lookup_after services (map (status_of instances) ws))
unfolding lookup_after fold
lookup_after-IsKnown instances [] services h = h
lookup_after-IsKnown instances (w ∷ ws) services h =
    lookup_after-IsKnown instances ws (update_service_status services (status_of instances w))
      (update-IsKnown services w (status_of instances w) (status_of-type instances w) h)

none-IsKnown : IsKnown []
unfolding lookup
none-IsKnown k s e = absurd (ground arith)

start-held :
    (instances : WellKnownService → Instances) (w : WellKnownService)
    → lookup (service_key w) (start instances).services ≡ some (status_of instances w)
unfolding start lookup_after fold update_service_status insert lookup service_key status_of
    create_service_status new_service_status
start-held instances pricing = refl
start-held instances reference = refl
start-held instances blotter = refl
start-held instances execution = refl
start-held instances analytics = refl

pub start-IsCurrent :
    (instances : WellKnownService → Instances) → IsCurrent instances (start instances).services
unfolding start
start-IsCurrent instances = record {
  held = start-held instances;
  known = lookup_after-IsKnown instances merged [] none-IsKnown;
  distinct = lookup_after-Distinct [] (map (status_of instances) merged) tt;
}

abbrev service_of : String → WellKnownService
service_of k =
    if k === "pricing"
    then pricing
    else if k === "reference"
    then reference
    else if k === "blotter"
    then blotter
    else (if k === "execution" then execution else analytics)

service_of-key : (w : WellKnownService) → service_of (service_key w) ≡ w
unfolding service_key
service_of-key pricing = refl
service_of-key reference = refl
service_of-key blotter = refl
service_of-key execution = refl
service_of-key analytics = refl

-- The services have different keys.
pub service_key-injective : (v w : WellKnownService) → service_key v ≡ service_key w → v ≡ w
service_key-injective v w e = sym (service_of-key v) ∙ ap service_of e ∙ service_of-key w

status_of-instances_after :
    (w : WellKnownService) (event : Instances.Event) (instances : WellKnownService → Instances)
    (v : WellKnownService)
    → (service_key w === service_key v) ≡ false
    → status_of (instances_after w event instances) v ≡ status_of instances v
unfolding instances_after status_of
status_of-instances_after w event instances v e = rw e refl

status_of-quiet :
    (w : WellKnownService) (event : Instances.Event) (c : CompositeStatusService)
    → publishes w event c ≡ false
    → status_of (instances_after w event c.instances) w ≡ status_of c.instances w
unfolding instances_after status_of publishes
status_of-quiet w event c q =
    let s = c.instances w in
    rw (eq_refl (service_key w)) (
      ap (create_service_status (service_key w))
        (value-step (service_key w) s.phase s.value event q))

lookup-update :
    (w v : WellKnownService) (services : Dict ServiceStatus) (s : ServiceStatus)
    → s.service_type ≡ service_key w
    → lookup (service_key v) (update_service_status services s)
      ≡ (if service_key w === service_key v then some s else lookup (service_key v) services)
unfolding update_service_status
lookup-update w v services s t =
    lookup-insert (service_key v) s.service_type s services
    ∙ ap (λ k. if k === service_key v then some s else lookup (service_key v) services) t

update-Distinct :
    (s : ServiceStatus) (services : Dict ServiceStatus)
    → Distinct services
    → Distinct (update_service_status services s)
unfolding update_service_status
update-Distinct s services h = insert-Distinct s.service_type s services h

module _ (w : WellKnownService) (event : Instances.Event) (c : CompositeStatusService) where
  receive-publishes :
      publishes w event c ≡ true
      → (receive w event c).services
        ≡ update_service_status c.services (status_of (instances_after w event c.instances) w)
  unfolding receive
  receive-publishes e = rw e refl

  pub receive_quiet : publishes w event c ≡ false → (receive w event c).services ≡ c.services
  unfolding receive
  receive_quiet e = rw e refl

  held-published :
      IsCurrent c.instances c.services
      → (v : WellKnownService)
      → lookup
          (service_key v)
          (update_service_status c.services (status_of (instances_after w event c.instances) w))
        ≡ some (status_of (instances_after w event c.instances) v)
  held-published h v =
      let after = instances_after w event c.instances in
      let updated = lookup-update w v c.services (status_of after w) (status_of-type after w) in
      elim (Bool-cases (service_key w === service_key v)) [
        | inl b ↦
            let e = service_key-injective w v ((eq_iff (service_key w) (service_key v)).0 b) in
            updated ∙ rw b (ap (λ x. some (status_of after x)) e)
        | inr b ↦
            updated
            ∙ rw b (h.held v ∙ ap some (sym (status_of-instances_after w event c.instances v b)))
      ]

  held-quiet :
      IsCurrent c.instances c.services
      → publishes w event c ≡ false
      → (v : WellKnownService)
      → lookup (service_key v) c.services ≡ some (status_of (instances_after w event c.instances) v)
  held-quiet h q v =
      h.held v
      ∙ ap some (
          sym (elim (Bool-cases (service_key w === service_key v)) [
            | inl b ↦
                let e = service_key-injective w v ((eq_iff (service_key w) (service_key v)).0 b) in
                subst
                  (λ x. status_of (instances_after w event c.instances) x ≡ status_of c.instances x)
                  e (status_of-quiet w event c q)
            | inr b ↦ status_of-instances_after w event c.instances v b
          ]))

  pub receive-IsCurrent :
      IsCurrent c.instances c.services
      → IsCurrent (receive w event c).instances (receive w event c).services
  unfolding receive
  receive-IsCurrent h =
      let after = instances_after w event c.instances in
      elim (Bool-cases (publishes w event c)) [
        | inl q ↦ subst (IsCurrent after) (sym (receive-publishes q)) (record {
          held = held-published h;
          known = update-IsKnown c.services w (status_of after w) (status_of-type after w) h.known;
          distinct = update-Distinct (status_of after w) c.services h.distinct;
        })
        | inr q ↦
            subst (IsCurrent after) (sym (receive_quiet q))
              (record { held = held-quiet h q; known = h.known; distinct = h.distinct })
      ]
