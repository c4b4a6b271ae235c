-- ===== src/System/Service/Tests.antt =====
-- Runs of the service client, and its theorems at concrete inputs.
use mathlib.Core.List.{Mem}
use mathlib.Core.List.Perm
use reactive_trader_cloud.Common.{
  ℕ, ◌≡◌, refl, Bool, true, false, Option, none, some, String, List, [], ◌∷◌, All, arith,
}
use reactive_trader_cloud.Common.Sorting.{le_key, IsSorted, sort, sort-perm, sort-IsSorted}
use reactive_trader_cloud.Common.Dict.{values}
use reactive_trader_cloud.System.Connection.Operations.{next}
use reactive_trader_cloud.System.Service.Status.{ServiceInstanceStatus}
use reactive_trader_cloud.System.Service.Dictionary.{
  LastValueObservable, LastValueObservableDictionary, empty, collect,
}
use reactive_trader_cloud.System.Service.Dictionary.Laws.{IsCollected, collect-IsCollected}
use reactive_trader_cloud.System.Service.MinLoad.{KeyLe, Ascending, SortBy, service_with_least_load}
use reactive_trader_cloud.System.Service.MinLoad.Selection.{service_with_least_load-least}
use reactive_trader_cloud.System.Service.Heartbeats.{
  heartbeat_timeout, item, debounced, debounce_with_selector,
}
use reactive_trader_cloud.System.Service.Heartbeats.Timeouts.{
  timeouts, timeouts-debounce_with_selector,
}
use reactive_trader_cloud.System.Service.Operations.{
  OperationEvent, status, response, call_remote, request_run,
}
use reactive_trader_cloud.System.Service.Operations.Once.{calls, calls-request_run}

KeyLe-of_le_key : (a b : Option ℕ) → le_key a b ≡ true → KeyLe a b
KeyLe-of_le_key none b h = tt
KeyLe-of_le_key (some a) none h = tt
KeyLe-of_le_key (some a) (some b) h = ground arith

All-KeyLe :
    {A : Type 0} (key : A → Option ℕ) (a : Option ℕ) (ys : List A)
    → All (λ y. le_key a (key y) ≡ true) ys
    → All (λ y. KeyLe a (key y)) ys
All-KeyLe key a [] h = tt
All-KeyLe key a (y ∷ ys) h = (KeyLe-of_le_key a (key y) h.0, All-KeyLe key a ys h.1)

IsSorted-Ascending :
    {A : Type 0} (key : A → Option ℕ) (xs : List A) → IsSorted key xs → Ascending key xs
IsSorted-Ascending key [] h = tt
IsSorted-Ascending key (x ∷ xs) h = (All-KeyLe key (key x) xs h.0, IsSorted-Ascending key xs h.1)

-- A function that meets what is asked of `sortBy`.
abbrev insertion_sort : SortBy
insertion_sort = record {
  sort_by = λ A key xs. sort key xs;
  ascending = λ A key xs. IsSorted-Ascending key (sort key xs) (sort-IsSorted key xs);
  same_members = λ A key xs x. Perm.mem_iff (sort-perm key xs);
}

abbrev instance_status : String → Option ℕ → Bool → ServiceInstanceStatus
instance_status id load connected = record {
  service_type = "pricing";
  service_id = id;
  timestamp = load;
  service_load = load;
  is_connected = connected;
}

abbrev heartbeats : List (ℕ × ServiceInstanceStatus)
heartbeats =
    (1, instance_status "p.1" (some 7) true)
    ∷ (2, instance_status "p.2" (some 3) true)
    ∷ (1, instance_status "p.1" none false)
    ∷ []

abbrev busy : LastValueObservable ℕ
busy = record { stream = 1; latest_value = instance_status "p.1" (some 7) true }

abbrev idle : LastValueObservable ℕ
idle = record { stream = 2; latest_value = instance_status "p.2" (some 3) true }

abbrev gone : LastValueObservable ℕ
gone = record { stream = 3; latest_value = instance_status "p.3" none false }

abbrev two_up : LastValueObservableDictionary ℕ
two_up = record { values = ("p.3", gone) ∷ ("p.1", busy) ∷ ("p.2", idle) ∷ []; version = 3 }

abbrev all_down : LastValueObservableDictionary ℕ
all_down = record { values = ("p.3", gone) ∷ []; version = 1 }

least_of_two : service_with_least_load insertion_sort two_up ≡ some idle
unfolding service_with_least_load sort
least_of_two = refl

least_of_none : service_with_least_load insertion_sort all_down ≡ none
unfolding service_with_least_load sort
least_of_none = refl

collect-IsCollected_example :
    (d' : LastValueObservableDictionary ℕ) × (collect empty heartbeats ≡ some d')
    × IsCollected heartbeats empty d'
collect-IsCollected_example = collect-IsCollected empty heartbeats

service_with_least_load-least_example :
    Mem idle (values two_up.values)
    × (idle.latest_value.is_connected ≡ true)
    × ((other : LastValueObservable ℕ)
        → Mem other (values two_up.values)
        → other.latest_value.is_connected ≡ true
        → KeyLe idle.latest_value.service_load other.latest_value.service_load)
service_with_least_load-least_example =
    service_with_least_load-least insertion_sort two_up idle least_of_two

abbrev beats : List (ℕ × ℕ)
beats = (1000, 1) ∷ (2000, 2) ∷ (9000, 3) ∷ []

run-beats :
    debounce_with_selector heartbeat_timeout 0 0 beats 10000
    ≡ item 1 ∷ item 2 ∷ debounced 0 ∷ item 3 ∷ []
unfolding debounce_with_selector
run-beats = refl

timeouts-debounce_with_selector_example :
    timeouts (debounce_with_selector heartbeat_timeout 0 0 beats 10000) ≡ 1
timeouts-debounce_with_selector_example =
    timeouts-debounce_with_selector heartbeat_timeout 0 0 beats 10000

abbrev events : List (OperationEvent ℕ)
events =
    status (instance_status "p.2" (some 3) true)
    ∷ response (next 5)
    ∷ status (instance_status "p.2" (some 4) true)
    ∷ []

calls-request_run_example :
    calls (request_run "executeTrade" false events) ≡ call_remote "p.2.executeTrade" "" ∷ []
calls-request_run_example = calls-request_run "executeTrade" events
