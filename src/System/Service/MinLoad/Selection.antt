-- ===== src/System/Service/MinLoad/Selection.antt =====
-- The instance that an operation is sent to.
use mathlib.Core.Logic.Or
use mathlib.Core.List.{Mem, mem-cons, not-mem-nil, mem-cons_self, mem-cons_of_mem}
use mathlib.Core.HLevel.{hedberg}
use native.Mathlib.Bridge.{le_prop}
use reactive_trader_cloud.Common.{
  ℕ, ◌≡◌, sym, subst, Bool, true, false, Option, none, some, List, [], ◌∷◌, All-mem, find,
  Bool-cases, arith, inl, inr,
}
use reactive_trader_cloud.Common.Dict.{values}
use reactive_trader_cloud.System.Service.Dictionary.{
  LastValueObservable, LastValueObservableDictionary,
}
use reactive_trader_cloud.System.Service.MinLoad.{KeyLe, Ascending, SortBy, service_with_least_load}

KeyLe-prop : (a b : Option ℕ) → IsProp (KeyLe a b)
KeyLe-prop none b = hlevel
KeyLe-prop (some a) none = hlevel
KeyLe-prop (some a) (some b) = le_prop

KeyLe-refl : (a : Option ℕ) → KeyLe a a
KeyLe-refl none = tt
KeyLe-refl (some a) = omega arith

Bool-discrete : Discrete Bool
Bool-discrete = hlevel

is_false-prop : (b : Bool) → IsProp (b ≡ false)
is_false-prop b = hedberg Bool-discrete b false

module _ {A : Type 0} where
  find-mem : (p : A → Bool) (xs : List A) (x : A) → find p xs ≡ some x → Mem x xs × (p x ≡ true)
  unfolding find
  find-mem p [] x e = cc
  find-mem p (y ∷ ys) x e = elim (Bool-cases (p y)) [
    | inl t ↦
        (subst (λ z. Mem z (y ∷ ys)) (ground arith) (mem-cons_self {a = y} {l = ys}), ground arith)
    | inr f ↦ let (m, t) = find-mem p ys x (ground arith) in (mem-cons_of_mem y m, t)
  ]

  find-least :
      (key : A → Option ℕ) (p : A → Bool) (xs : List A) (x y : A)
      → Ascending key xs
      → find p xs ≡ some x
      → Mem y xs
      → p y ≡ true
      → KeyLe (key x) (key y)
  unfolding find
  find-least key p [] x y a e m t = cc
  find-least key p (z ∷ zs) x y a e m t = elim (Bool-cases (p z)) [
    | inl u ↦
        let z_eq_x : z ≡ x = ground arith in
        subst (λ w. KeyLe (key w) (key y)) z_eq_x
          (Or.elim (KeyLe-prop (key z) (key y)) (mem-cons.0 m)
            (λ q. subst (λ w. KeyLe (key z) (key w)) (sym q) (KeyLe-refl (key z)))
            (All-mem (λ w. KeyLe-prop (key z) (key w)) zs a.0 y))
    | inr f ↦
        Or.elim (KeyLe-prop (key x) (key y)) (mem-cons.0 m) (λ q. absurd (ground arith))
          (λ k. find-least key p zs x y a.1 (ground arith) k t)
  ]

  find-none : (p : A → Bool) (xs : List A) (y : A) → find p xs ≡ none → Mem y xs → p y ≡ false
  unfolding find
  find-none p [] y e m = absurd (not-mem-nil m)
  find-none p (z ∷ zs) y e m =
      Or.elim (is_false-prop (p y)) (mem-cons.0 m) (λ q. ground arith)
        (λ k. find-none p zs y (ground arith) k)

module _ (lodash : SortBy) {S : Type 0} (d : LastValueObservableDictionary S) where
  -- The chosen instance is in the dictionary and connected, and no connected instance there has a
  -- smaller load, for every sortBy that orders the numbers among the keys and keeps the elements.
  pub service_with_least_load-least :
      (o : LastValueObservable S)
      → service_with_least_load lodash d ≡ some o
      → Mem o (values d.values)
        × (o.latest_value.is_connected ≡ true)
        × ((other : LastValueObservable S)
            → Mem other (values d.values)
            → other.latest_value.is_connected ≡ true
            → KeyLe o.latest_value.service_load other.latest_value.service_load)
  unfolding service_with_least_load
  service_with_least_load-least o e =
      let (m, t) = find-mem _ _ o e in
      (
        (lodash.same_members _ _ (values d.values) o).0 m,
        t,
        λ other k u.
            find-least _ _ _ o other (lodash.ascending _ _ (values d.values)) e
              ((lodash.same_members _ _ (values d.values) other).1 k) u,
      )

  -- If no instance is chosen, no instance in the dictionary is connected.
  pub service_with_least_load-none :
      service_with_least_load lodash d ≡ none
      → (other : LastValueObservable S) → Mem other (values d.values)
      → other.latest_value.is_connected ≡ false
  unfolding service_with_least_load
  service_with_least_load-none e other k =
      find-none _ _ other e ((lodash.same_members _ _ (values d.values) other).1 k)
