-- ===== src/System/Service/MinLoad/Resubscription.antt =====
-- When the search for an instance stops listening to its source.
use reactive_trader_cloud.Common.{
  ◌≡◌, refl, Bool, true, false, Option, none, some, List, [], ◌∷◌, ◌++◌, arith, Option-cases, inl,
  inr,
}
use reactive_trader_cloud.System.Service.Dictionary.{
  LastValueObservable, LastValueObservableDictionary,
}
use reactive_trader_cloud.System.Service.MinLoad.{
  SortBy, service_with_least_load, source_subscription, Search, SearchEffect, subscribe_to,
  no_service_available, on_dictionary, deliver, get_service_with_min_load,
}

abbrev listening : Search
listening = record { handle = source_subscription; source_disposed = false }

module _ {S : Type 0} where
  -- The subscriptions to instances that a run makes.
  abbrev pub chosen : List (SearchEffect S) → List (LastValueObservable S)
  chosen [] = []
  chosen (subscribe_to o ∷ es) = o ∷ chosen es
  chosen (no_service_available ∷ es) = chosen es

  abbrev pub to_list : Option (LastValueObservable S) → List (LastValueObservable S)
  to_list none = []
  to_list (some o) = o ∷ []

module _ (lodash : SortBy) {S : Type 0} where
  -- The first choice only.
  abbrev pub first_choice : List (LastValueObservableDictionary S) → List (LastValueObservable S)
  first_choice [] = []
  first_choice (d ∷ ds) = elim (service_with_least_load lodash d) [
    | none ↦ first_choice ds
    | some o ↦ o ∷ []
  ]

  module _ (wait : Bool) where
    deliver-disposed :
        (s : Search) (ds : List (LastValueObservableDictionary S))
        → s.source_disposed ≡ true
        → (deliver lodash wait s ds).1 ≡ []
    unfolding deliver
    deliver-disposed s [] h = refl
    deliver-disposed s (d ∷ ds) h = rw h

    deliver-first_choice :
        (s : Search) (ds : List (LastValueObservableDictionary S))
        → s.handle ≡ source_subscription
        → s.source_disposed ≡ false
        → chosen (deliver lodash wait s ds).1 ≡ first_choice ds
    unfolding deliver on_dictionary
    deliver-first_choice s [] h k = refl
    deliver-first_choice s (d ∷ ds) h k = elim (Option-cases (service_with_least_load lodash d)) [
      | inl e ↦ ground (arith, deliver-first_choice s ds h k)
      | inr (o, e) ↦ ground (arith, deliver-disposed (record s { source_disposed = true }) ds)
    ]

    -- A source that delivers one dictionary while it is subscribed to, as a behaviour subject does:
    -- the choice from that dictionary, if it has one, does not stop the search, which goes on to
    -- the first later dictionary with a connected instance and chooses once more.
    pub chosen-get_service_with_min_load :
        (d : LastValueObservableDictionary S) (later : List (LastValueObservableDictionary S))
        → chosen (get_service_with_min_load lodash wait (d ∷ []) later).1
          ≡ to_list (service_with_least_load lodash d) ++ first_choice later
    unfolding get_service_with_min_load
    chosen-get_service_with_min_load d later =
        elim (Option-cases (service_with_least_load lodash d)) [
          | inl e ↦
              rw (e, on_dictionary) (ground (arith, deliver-first_choice listening later refl refl))
          | inr (o, e) ↦
              rw (e, on_dictionary) (ground (arith, deliver-first_choice listening later refl refl))
        ]
