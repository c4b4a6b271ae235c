-- ===== src/System/Service/Dictionary/Laws.antt =====
-- What the dictionary of a service's instances holds after any sequence of heartbeats and timeouts.
use reactive_trader_cloud.Common.{
  suc, ◌+◌, ◌<◌, String, ◌≡◌, refl, ◌↔◌, inl, inr, true, Option, none, some, List, [], ◌∷◌, map,
  ◌===◌, if◌then◌else◌, length, any, filter, Option-cases, arith,
}
use reactive_trader_cloud.Common.Dict.{
  lookup, insert, values, Distinct, lookup-insert, has_key-lookup, insert-Distinct,
}
use reactive_trader_cloud.System.Service.Status.{ServiceInstanceStatus}
use reactive_trader_cloud.System.Service.Dictionary.{
  LastValueObservable, LastValueObservableDictionary, add, on_value, collect, create_service_status,
}

module _ {S : Type 0} where
  abbrev pub latest_of : String → LastValueObservableDictionary S → Option ServiceInstanceStatus
  latest_of id d = elim (lookup id d.values) [ none ↦ none | some o ↦ some o.latest_value ]

  -- The last status of an instance in a sequence, or the one before it.
  abbrev pub last_status :
      String
      → Option ServiceInstanceStatus
      → List (S × ServiceInstanceStatus)
      → Option ServiceInstanceStatus
  last_status id before [] = before
  last_status id before ((source, v) ∷ rest) =
      last_status id (if v.service_id === id then some v else before) rest

  pub record IsNext (v : ServiceInstanceStatus) (d d' : LastValueObservableDictionary S)
      : Type 0 where
    pub versions : d'.version ≡ suc d.version
    pub latest :
        (id : String) → latest_of id d' ≡ (if v.service_id === id then some v else latest_of id d)
    pub distinct : Distinct d.values → Distinct d'.values

  pub on_value-IsNext :
      (source : S) (v : ServiceInstanceStatus) (d : LastValueObservableDictionary S)
      → (d' : LastValueObservableDictionary S) × (on_value source v d ≡ some d') × IsNext v d d'
  unfolding on_value
  on_value-IsNext source v d = elim (Option-cases (lookup v.service_id d.values)) [
    | inl e ↦ (
      add v.service_id (record { stream = source; latest_value = v }) d,
      ground (arith, has_key-lookup v.service_id d.values),
      record {
        versions = refl;
        latest = λ id. ground (
          arith,
          lookup-insert id v.service_id (record { stream = source; latest_value = v }) d.values,
        );
        distinct = insert-Distinct v.service_id _ d.values;
      },
    )
    | inr (o, e) ↦ (
      record {
        values = insert v.service_id (record o { latest_value = v }) d.values;
        version = suc d.version;
      },
      ground (arith, has_key-lookup v.service_id d.values),
      record {
        versions = refl;
        latest = λ id.
            ground (arith, lookup-insert id v.service_id (record o { latest_value = v }) d.values);
        distinct = insert-Distinct v.service_id _ d.values;
      },
    )
  ]

  pub record IsCollected (xs : List (S × ServiceInstanceStatus))
      (d d' : LastValueObservableDictionary S) : Type 0 where
    pub versions : d'.version ≡ d.version + length xs
    pub latest : (id : String) → latest_of id d' ≡ last_status id (latest_of id d) xs
    pub distinct : Distinct d.values → Distinct d'.values

  -- Collecting the values of the instances' streams never fails: the version counts them, each
  -- instance has the status that arrived last for it, or the one it had before, and no instance
  -- is stored twice if none was.
  pub collect-IsCollected :
      (d : LastValueObservableDictionary S) (xs : List (S × ServiceInstanceStatus))
      → (d' : LastValueObservableDictionary S) × (collect d xs ≡ some d') × IsCollected xs d d'
  unfolding collect
  collect-IsCollected d [] =
      (d, refl, record { versions = omega arith; latest = λ id. refl; distinct = λ h. h })
  collect-IsCollected d ((source, v) ∷ xs) =
      let (d₁, e, n) = on_value-IsNext source v d in
      let (d', e', c) = collect-IsCollected d₁ xs in
      (
        d',
        rw (e, collect) e',
        record {
          versions = omega (arith, n.versions, c.versions);
          latest = λ id. rw (← n.latest id) (c.latest id);
          distinct = λ h. c.distinct (n.distinct h);
        },
      )

  any-filter :
      (os : List (LastValueObservable S))
      → (any (λ o. o.latest_value.is_connected) os ≡ true)
        ↔ (0 < length (filter (λ s. s.is_connected) (map (λ o. o.latest_value) os)))
  unfolding any filter
  any-filter [] = ((λ e. cc), λ h. absurd (omega arith))
  any-filter (o ∷ os) = let h = any-filter os in (ground (arith, h.0), ground (arith, h.1))

  -- The summary of a dictionary says that the service is connected exactly when it counts a
  -- connected instance.
  pub create_service_status-connected :
      (type : String) (d : LastValueObservableDictionary S)
      → let s = create_service_status type d in
        (s.is_connected ≡ true) ↔ (0 < s.connected_instance_count)
  unfolding create_service_status
  create_service_status-connected type d = any-filter (values d.values)
