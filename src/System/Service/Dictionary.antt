-- ===== src/System/Service/Dictionary.antt =====
-- lastValueObservable.js, lastValueObservableDictionary.js, `toServiceStatusObservableDictionary` of
-- serviceObservableExtensions.js and `_createServiceStatus` of serviceClient.js, all in
-- src/client/src/system/service.
pub mod Laws
use reactive_trader_cloud.Common.{
  ℕ, suc, String, Bool, Option, none, some, List, [], ◌∷◌, map, if◌then◌else◌, any, fold,
}
use reactive_trader_cloud.Common.Dict.{Dict, lookup, has_key, insert, values}
use reactive_trader_cloud.System.Service.Status.{
  ServiceInstanceStatus, ServiceStatus, new_service_status,
}

-- `S` is the type of the streams of the single instances.
pub record LastValueObservable (S : Type 0) : Type 0 where
  pub stream : S
  pub latest_value : ServiceInstanceStatus

pub record LastValueObservableDictionary (S : Type 0) : Type 0 where
  pub values : Dict (LastValueObservable S)
  pub version : ℕ

module _ {S : Type 0} where
  unfoldable pub empty : LastValueObservableDictionary S
  empty = record { values = []; version = 0 }

  unfoldable pub add :
      String
      → LastValueObservable S
      → LastValueObservableDictionary S
      → LastValueObservableDictionary S
  unfolding insert
  add key value d = record { values = insert key value d.values; version = suc d.version }

  -- Fails where the key is missing, by an assignment to a property of `undefined`. The stored
  -- object keeps its stream.
  unfoldable pub update_with_latest_value :
      String
      → ServiceInstanceStatus
      → LastValueObservableDictionary S
      → Option (LastValueObservableDictionary S)
  unfolding lookup insert
  update_with_latest_value key latest d = elim (lookup key d.values) [
    | none ↦ none
    | some o ↦ some (record {
      values = insert key (record o { latest_value = latest }) d.values;
      version = suc d.version;
    })
  ]

  -- The handler of a value of an inner stream, and what it gives to `onNext`.
  unfoldable pub on_value :
      S
      → ServiceInstanceStatus
      → LastValueObservableDictionary S
      → Option (LastValueObservableDictionary S)
  unfolding has_key add update_with_latest_value
  on_value source value d =
      if has_key value.service_id d.values
      then update_with_latest_value value.service_id value d
      else some (add value.service_id (record { stream = source; latest_value = value }) d)

  -- The dictionary after the values of the inner streams, in the order in which they arrive.
  unfoldable pub collect :
      LastValueObservableDictionary S
      → List (S × ServiceInstanceStatus)
      → Option (LastValueObservableDictionary S)
  unfolding on_value
  collect d [] = some d
  collect d ((source, value) ∷ rest) = elim (on_value source value d) [
    | none ↦ none
    | some d' ↦ collect d' rest
  ]

  -- `_createServiceStatus`
  unfoldable pub create_service_status : String → LastValueObservableDictionary S → ServiceStatus
  unfolding values new_service_status any
  create_service_status type cache =
      new_service_status type (map (λ o. o.latest_value) (values cache.values))
        (any (λ o. o.latest_value.is_connected) (values cache.values))
