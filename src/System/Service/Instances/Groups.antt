-- ===== src/System/Service/Instances/Groups.antt =====
-- A status that reaches the group of its instance keeps to the account of the instances.
use reactive_trader_cloud.Common.{
  ◌≡◌, refl, sym, ap, ◌∙◌, String, Bool, true, false, Option, none, some, ◌===◌, if◌then◌else◌,
  arith, eq_iff, Option-cases, Bool-cases, inl, inr, subst, ◌⊎◌,
}
use reactive_trader_cloud.Common.Dict.{Dict, lookup, insert, lookup-insert}
use reactive_trader_cloud.System.Service.Status.{ServiceInstanceStatus}
use reactive_trader_cloud.System.Service.Dictionary.{LastValueObservableDictionary, on_value}
use reactive_trader_cloud.System.Service.Dictionary.Laws.{latest_of, on_value-IsNext, IsNext}
use reactive_trader_cloud.System.Service.Instances.{
  Key, Group, running, Instances, same_key, key_of, collect_status, on_status,
}
use reactive_trader_cloud.System.Service.Instances.Account.{
  Fleet, know, read_key, seen, group_of, RefinesPhase, Refines,
}

same_key_eq : (a b : Key) → same_key a b ≡ true → a ≡ b
same_key_eq a b h = ground arith

read_key-if :
    (b : Bool) (v : ServiceInstanceStatus) (o : Option ServiceInstanceStatus)
    → read_key (if b then some v else o) ≡ (if b then some (key_of v) else read_key o)
read_key-if true v o = refl
read_key-if false v o = refl

seen-next :
    (v : ServiceInstanceStatus) (d d' : LastValueObservableDictionary String) (k : String)
    → IsNext v d d'
    → seen k d' ≡ (if v.service_id === k then some (key_of v) else seen k d)
seen-next v d d' k n = ap read_key (n.latest k) ∙ read_key-if (v.service_id === k) v (latest_of k d)

known-group :
    (id k : String) (key : Key) (groups : Dict Group) (f : Fleet)
    → lookup k groups ≡ group_of (f.instance k)
    → lookup k (insert id (record { key = key; is_timing = key.is_connected }) groups)
      ≡ group_of ((know id key f).instance k)
known-group id k key groups f e = ground (
  arith,
  lookup-insert k id (record { key = key; is_timing = key.is_connected }) groups,
  eq_iff id k,
)

collect_status_eq :
    (v : ServiceInstanceStatus) (groups : Dict Group) (s : Instances)
    (d d' : LastValueObservableDictionary String)
    → on_value v.service_id v d ≡ some d'
    → collect_status v.service_id v groups s d ≡ record { phase = running groups d'; value = d' }
unfolding collect_status
collect_status_eq v groups s d d' e = ground arith

abbrev grouped : ServiceInstanceStatus → Dict Group → Dict Group
grouped v groups =
    insert v.service_id (record { key = key_of v; is_timing = v.is_connected }) groups

collect_status-Refines :
    (v : ServiceInstanceStatus) (groups : Dict Group) (s : Instances)
    (d : LastValueObservableDictionary String) (f : Fleet)
    → f.is_up ≡ true
    → ((k : String) → seen k d ≡ f.instance k)
    → ((k : String) → lookup k groups ≡ group_of (f.instance k))
    → Refines
        (collect_status v.service_id v (grouped v groups) s d)
        (know v.service_id (key_of v) f)
unfolding RefinesPhase
collect_status-Refines v groups s d f up sees held =
    let (d', e, n) = on_value-IsNext v.service_id v d in
    subst (λ x. Refines x (know v.service_id (key_of v) f))
      (sym (collect_status_eq v (grouped v groups) s d d' e))
      (
        up,
        refl,
        (λ k.
            seen-next v d d' k n
            ∙ ap (λ o. if v.service_id === k then some (key_of v) else o) (sees k)),
        λ k. known-group v.service_id k (key_of v) groups f (held k),
      )

on_status_let_through :
    (v : ServiceInstanceStatus) (groups : Dict Group) (d : LastValueObservableDictionary String)
    (s : Instances)
    → (on_status v v.is_connected groups d s ≡ collect_status v.service_id v (grouped v groups) s d)
      ⊎ ((g : Group) × (lookup v.service_id groups ≡ some g)
          × (g.key ≡ key_of v)
          × (on_status v v.is_connected groups d s
              ≡ record { phase = running (grouped v groups) d; value = s.value }))
unfolding on_status
on_status_let_through v groups d s = elim (Option-cases (lookup v.service_id groups)) [
  | inl e ↦ inl (ground arith)
  | inr (g, e) ↦ elim (Bool-cases (same_key g.key (key_of v))) [
    | inl t ↦ inr (g, e, same_key_eq g.key (key_of v) t, ground arith)
    | inr t ↦ inl (ground arith)
  ]
]

group_of-key : (o : Option Key) (g : Group) → some g ≡ group_of o → o ≡ some g.key
group_of-key none g h = cc
group_of-key (some key) g h = ground arith

know_again :
    (id k : String) (key : Key) (f : Fleet)
    → f.instance id ≡ some key
    → f.instance k ≡ (know id key f).instance k
know_again id k key f e = elim (Bool-cases (id === k)) [
  | inl b ↦ rw b (ap f.instance (sym ((eq_iff id k).0 b)) ∙ e)
  | inr b ↦ rw b refl
]

pub on_status-Refines :
    (v : ServiceInstanceStatus) (groups : Dict Group) (d : LastValueObservableDictionary String)
    (s : Instances) (f : Fleet)
    → f.is_up ≡ true
    → s.value ≡ d
    → ((k : String) → seen k d ≡ f.instance k)
    → ((k : String) → lookup k groups ≡ group_of (f.instance k))
    → Refines (on_status v v.is_connected groups d s) (know v.service_id (key_of v) f)
unfolding RefinesPhase
on_status-Refines v groups d s f up same sees held = elim (on_status_let_through v groups d s) [
  | inl e ↦
      subst (λ x. Refines x (know v.service_id (key_of v) f)) (sym e)
        (collect_status-Refines v groups s d f up sees held)
  | inr (g, e, t, q) ↦
      let old : f.instance v.service_id ≡ some (key_of v) =
        group_of-key (f.instance v.service_id) g (sym e ∙ held v.service_id) ∙ ap some t in
      subst (λ x. Refines x (know v.service_id (key_of v) f)) (sym q)
        (
          up,
          same,
          (λ k. sees k ∙ know_again v.service_id k (key_of v) f old),
          λ k. known-group v.service_id k (key_of v) groups f (held k),
        )
]
