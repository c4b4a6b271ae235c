-- ===== src/System/Service/MinLoad.antt =====
-- `getServiceWithMinLoad` of src/client/src/system/service/serviceObservableExtensions.js.
pub mod Selection
pub mod Resubscription
use mathlib.Core.List.{Mem}
use reactive_trader_cloud.Common.{
  ℕ, ◌≤◌, ◌↔◌, Bool, true, false, Option, none, some, List, [], ◌∷◌, ◌++◌, All, find, if◌then◌else◌,
}
use reactive_trader_cloud.Common.Dict.{values}
use reactive_trader_cloud.System.Service.Status.{ServiceInstanceStatus}
use reactive_trader_cloud.System.Service.Dictionary.{
  LastValueObservable, LastValueObservableDictionary,
}

-- Two sort keys in order; NaN has no order with a number.
abbrev pub KeyLe : Option ℕ → Option ℕ → Type 0
KeyLe (some a) (some b) = a ≤ b
KeyLe _ _ = Unit

abbrev pub Ascending : {A : Type 0} → (A → Option ℕ) → List A → Type 0
Ascending key [] = Unit
Ascending key (x ∷ xs) = All (λ y. KeyLe (key x) (key y)) xs × Ascending key xs

-- lodash's `sortBy`: the same elements, with the numbers among the keys in ascending order.
pub record SortBy : Type 1 where
  pub sort_by : (A : Type 0) → (A → Option ℕ) → List A → List A
  pub ascending : (A : Type 0) (key : A → Option ℕ) (xs : List A) → Ascending key (sort_by A key xs)
  pub same_members :
      (A : Type 0) (key : A → Option ℕ) (xs : List A) (x : A) → Mem x (sort_by A key xs) ↔ Mem x xs

module _ (lodash : SortBy) {S : Type 0} where
  unfoldable pub service_with_least_load :
      LastValueObservableDictionary S → Option (LastValueObservable S)
  unfolding values find
  service_with_least_load d =
      find (λ o. o.latest_value.is_connected)
        (lodash.sort_by (LastValueObservable S) (λ o. o.latest_value.service_load)
          (values d.values))

-- The variable `findServiceInstanceDisposable`: the disposable it is created with, before
-- `source.subscribe` returns, and the subscription to the source afterwards.
pub data Handle : Type 0 where
  placeholder source_subscription : Handle

pub record Search : Type 0 where
  pub handle : Handle
  pub source_disposed : Bool

pub data SearchEffect (S : Type 0) : Type 0 where
  subscribe_to : LastValueObservable S → SearchEffect S
  no_service_available : SearchEffect S

-- Disposing what the variable holds: only the subscription stops the source.
abbrev pub dispose_handle : Search → Search
dispose_handle s = elim s.handle [
  | placeholder ↦ s
  | source_subscription ↦ record s { source_disposed = true }
]

module _ (lodash : SortBy) {S : Type 0} (wait_for_service : Bool) where
  -- The handler of a dictionary.
  unfoldable pub on_dictionary :
      Search → LastValueObservableDictionary S → Search × List (SearchEffect S)
  unfolding service_with_least_load
  on_dictionary s d = elim (service_with_least_load lodash d) [
    | some o ↦ (dispose_handle s, subscribe_to o ∷ [])
    | none ↦ (s, if wait_for_service then [] else (no_service_available ∷ []))
  ]

  -- A source that is disposed delivers nothing more.
  unfoldable pub deliver :
      Search → List (LastValueObservableDictionary S) → Search × List (SearchEffect S)
  unfolding on_dictionary
  deliver s [] = (s, [])
  deliver s (d ∷ ds) =
      let (s', now) = on_dictionary s d in
      let (s'', later) = deliver s' ds in if s.source_disposed then (s, []) else (s'', now ++ later)

  -- The source delivers some dictionaries while it is being subscribed to, as a behaviour subject
  -- does with its current value, and others later.
  unfoldable pub get_service_with_min_load :
      List (LastValueObservableDictionary S)
      → List (LastValueObservableDictionary S)
      → Search × List (SearchEffect S)
  unfolding deliver
  get_service_with_min_load at_once later =
      let (s, now) = deliver (record { handle = placeholder; source_disposed = false }) at_once in
      let (s', after) = deliver (record s { handle = source_subscription }) later in
      (s', now ++ after)
