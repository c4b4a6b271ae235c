-- ===== src/System/OpenFin/Topics.antt =====
-- The topics on which the client waits for the answers of the limit checker.
use mathlib.Core.List.{Mem, mem-cons, not-mem-nil, Nodup, Nodup-nil, Nodup-cons}
use mathlib.Core.Logic.Or
use reactive_trader_cloud.Common.{
  ℕ, suc, ◌≤◌, Bool, List, [], ◌∷◌, ◌++◌, ◌≡◌, refl, sym, ap, subst, All, arith, ◌⊎◌, inl, inr,
}
use reactive_trader_cloud.System.OpenFin.{
  OpenFin, created, Call, subscribe, send, unsubscribe, publish_positions, publish_spot_price,
  Event, subscribed, unsubscribed, checked, disposed, positions_published, price_published,
  on_subscribe, on_unsubscribe, check_limit, dispose_check, publish_current_positions,
  publish_price, step, run, awaited, delegated,
}

-- The topics of the limit checks that were sent, in order.
abbrev pub asked : List Call → List ℕ
asked [] = []
asked (send uuid check ∷ calls) = check.response_topic.number ∷ asked calls
asked (subscribe uuid topic ∷ calls) = asked calls
asked (unsubscribe uuid topic ∷ calls) = asked calls
asked (publish_positions positions ∷ calls) = asked calls
asked (publish_spot_price price ∷ calls) = asked calls

asked-append : (xs ys : List Call) → asked (xs ++ ys) ≡ asked xs ++ asked ys
asked-append [] ys = refl
asked-append (send uuid check ∷ xs) ys =
    ap (λ r. check.response_topic.number ∷ r) (asked-append xs ys)
asked-append (subscribe uuid topic ∷ xs) ys = asked-append xs ys
asked-append (unsubscribe uuid topic ∷ xs) ys = asked-append xs ys
asked-append (publish_positions positions ∷ xs) ys = asked-append xs ys
asked-append (publish_spot_price price ∷ xs) ys = asked-append xs ys

-- A step asks on no topic and keeps the number, or on the topic of the number, which it raises.
IsStep : OpenFin → OpenFin × List Call → Type 0
IsStep o r =
    ((asked r.1 ≡ []) × (r.0.limit_check_id ≡ o.limit_check_id))
    ⊎ ((asked r.1 ≡ o.limit_check_id ∷ []) × (r.0.limit_check_id ≡ suc o.limit_check_id))

step-IsStep : (o : OpenFin) (event : Event) → IsStep o (step o event)
unfolding step IsStep on_subscribe on_unsubscribe check_limit dispose_check
    publish_current_positions publish_price
step-IsStep o (subscribed uuid topic) = inl (refl, ground arith)
step-IsStep o (unsubscribed uuid topic) = inl (refl, ground arith)
step-IsStep o (checked price notional pair) = ground arith
step-IsStep o (disposed (awaited topic)) = inl (refl, refl)
step-IsStep o (disposed delegated) = inl (refl, refl)
step-IsStep o (positions_published positions) = inl (ground arith, refl)
step-IsStep o (price_published price) = inl (ground arith, refl)

-- Topics that are all different, from a number on.
abbrev IsFreshFrom : ℕ → List ℕ → Type 0
IsFreshFrom n topics = All (λ t. n ≤ t) topics × Nodup topics

weaken : (m n : ℕ) (topics : List ℕ) → m ≤ n → All (λ t. n ≤ t) topics → All (λ t. m ≤ t) topics
weaken m n [] h a = tt
weaken m n (t ∷ topics) h a = (omega (arith, h, a.0), weaken m n topics h a.1)

not_mem-above : (n : ℕ) (topics : List ℕ) → All (λ t. suc n ≤ t) topics → Mem n topics → ⊥
not_mem-above n [] a m = not-mem-nil m
not_mem-above n (t ∷ topics) a m =
    let never : IsProp ⊥ = hlevel in
    Or.elim never (mem-cons.0 m) (λ e. omega (arith, e, a.0)) (not_mem-above n topics a.1)

below-Nodup : (n : ℕ) (topics : List ℕ) → IsFreshFrom (suc n) topics → Nodup (n ∷ topics)
below-Nodup n topics (above, distinct) = Nodup-cons.1 (not_mem-above n topics above, distinct)

run-IsFresh :
    (o : OpenFin) (events : List Event) → IsFreshFrom o.limit_check_id (asked (run o events).1)
unfolding run IsStep
run-IsFresh o [] = (tt, Nodup-nil)
run-IsFresh o (event ∷ events) =
    let o' = (step o event).0 in
    let rest : IsFreshFrom o'.limit_check_id (asked (run o' events).1) = run-IsFresh o' events in
    let split = asked-append (step o event).1 (run o' events).1 in
    subst (IsFreshFrom o.limit_check_id) (sym split) (elim (step-IsStep o event) [
      | inl (none_asked, same) ↦
          subst (λ x. IsFreshFrom o.limit_check_id (x ++ asked (run o' events).1)) (sym none_asked)
            (subst (λ n. IsFreshFrom n (asked (run o' events).1)) same rest)
      | inr (one_asked, next) ↦
          let rest' : IsFreshFrom (suc o.limit_check_id) (asked (run o' events).1) =
            subst (λ n. IsFreshFrom n (asked (run o' events).1)) next rest in
          subst (λ x. IsFreshFrom o.limit_check_id (x ++ asked (run o' events).1)) (sym one_asked)
            (
              (omega arith, weaken o.limit_check_id (suc o.limit_check_id) _ (omega arith) rest'.0),
              below-Nodup o.limit_check_id _ rest',
            )
    ])

-- Over any history of the container's bus, no two limit checks are sent with one response topic.
pub asked-run-Nodup :
    (running : Bool) (events : List Event) → Nodup (asked (run (created running) events).1)
asked-run-Nodup running events = (run-IsFresh (created running) events).1
