-- ===== src/System/Service/Instances/Tests.antt =====
-- The dictionary of a service's instances on a concrete run, and its theorem at that run.
use reactive_trader_cloud.Common.{
  All, false, ◌===◌, ◌≢◌, ℕ, eq_iff, arith, ◌≡◌, refl, true, some, none, List, [], ◌∷◌, String,
}
use reactive_trader_cloud.System.Service.Instances.{
  Event, connection, heartbeat, missed, created, run,
}
use reactive_trader_cloud.System.Service.Instances.Account.{IsNamed, seen}
use reactive_trader_cloud.System.Service.Instances.Refinement.{seen-run}

abbrev beat : String → String → ℕ → Event
beat type id load = heartbeat (record { type = type; instance_id = id; timestamp = 1; load = load })

abbrev events : List Event
events =
    connection true
    ∷ beat "pricing" "p.1" 3
    ∷ beat "blotter" "b.1" 1
    ∷ beat "pricing" "p.2" 0
    ∷ missed "p.1"
    ∷ beat "pricing" "p.2" 4
    ∷ []

first_gone :
    seen "p.1" (run "pricing" created events).value
    ≡ some (record { is_connected = false; load = none })
unfolding run created
first_gone = refl

all_gone :
    seen "p.2"
      (run "pricing" created
        (connection true ∷ beat "pricing" "p.2" 4 ∷ connection false ∷ [])).value
    ≡ none
unfolding run created
all_gone = refl

-- No id is empty.
nonempty : (a : String) → (a === "") ≡ false → a ≢ ""
nonempty a e = ground (arith, eq_iff a "")

events-IsNamed : All IsNamed events
events-IsNamed = (
  tt,
  (
    nonempty "p.1" refl,
    (nonempty "b.1" refl, (nonempty "p.2" refl, (nonempty "p.1" refl, (nonempty "p.2" refl, tt)))),
  ),
)

seen-run_example :
    seen "p.2" (run "pricing" created events).value
    ≡ some (record { is_connected = true; load = some 4 })
seen-run_example = seen-run "pricing" events "p.2" (nonempty "pricing" refl) events-IsNamed
