-- ===== src/Ui/Regions/Steps.antt =====
-- One step of popping a model out and of closing its popout.
use mathlib.Core.List.{append-nil}
use reactive_trader_cloud.Common.{
  ◌≡◌, ◌≢◌, refl, ap, ◌∙◌, String, Bool, true, not, Option, none, some, List, [], ◌∷◌, ◌++◌, filter,
  arith, eq_iff, eq_refl, ◌===◌,
}
use reactive_trader_cloud.Common.Dict.{Dict, lookup, insert, lookup-insert}
use reactive_trader_cloud.Common.Result.{returns}
use reactive_trader_cloud.Ui.Regions.{
  Registration, plain, Region, RegionManager, matches, remove_from_region, add_to_region,
  save_state, should_popout_from_region, add, remove, callbacks,
}

-- What a region holds.
abbrev pub held : String → RegionManager → Option (List Registration)
held name m = elim (lookup name m.regions) [ none ↦ none | some region ↦ some region.registrations ]

-- The other registrations of a region.
abbrev pub others : String → List Registration → List Registration
others model rs = filter (λ r. not (matches model none r)) rs

-- The registration of a popout.
abbrev pub popped : String → String → Registration
popped name model = record {
  model_id = model;
  display_context = none;
  on_externally_removed = some (record { region_name = name; model_id = model });
}

pub remove_eq :
    (name model : String) (external : Bool) (m : RegionManager) (region : Region)
    → lookup name m.regions ≡ some region
    → remove name model external none m
      ≡ returns (
        record m {
          regions = insert name (remove_from_region model external none region).0 m.regions;
        },
        (remove_from_region model external none region).1,
      )
unfolding remove
remove_eq name model external m region h = ground arith

abbrev pub with_registration : Registration → Region → Region
with_registration r region = record region { registrations = region.registrations ++ r ∷ [] }

pub add_eq :
    (name : String) (r : Registration) (m : RegionManager) (region : Region)
    → lookup name m.regions ≡ some region
    → region.kind ≡ plain
    → m.persists ≡ true
    → add name r true m
      ≡ returns (
        record m {
          regions = insert name (with_registration r region) m.regions;
          stored = insert r.model_id name m.stored;
        },
        [],
      )
unfolding add add_to_region save_state
add_eq name r m region h e p = ground arith

pub filter-append :
    (p : Registration → Bool) (xs ys : List Registration)
    → filter p (xs ++ ys) ≡ filter p xs ++ filter p ys
unfolding filter
filter-append p [] ys = refl
filter-append p (x ∷ xs) ys = ground (arith, filter-append p xs ys)

matches-popped : (name model : String) → matches model none (popped name model) ≡ true
matches-popped name model = rw (eq_refl model) refl

kept_alone :
    (name model : String) (rs : List Registration)
    → rs ++ others model (popped name model ∷ []) ≡ rs
unfolding filter
kept_alone name model rs = rw (eq_refl model) (append-nil rs)

called_once :
    (name model : String)
    → callbacks true ([] ++ filter (matches model none) (popped name model ∷ []))
      ≡ record { region_name = name; model_id = model } ∷ []
unfolding filter
called_once name model = rw (eq_refl model) refl

pub lookup-insert_same :
    {V : Type 0} (k : String) (v : V) (d : Dict V) → lookup k (insert k v d) ≡ some v
lookup-insert_same k v d = lookup-insert k k v d ∙ rw (eq_refl k) refl

pub lookup-insert_other :
    {V : Type 0} (j k : String) (v : V) (d : Dict V) → k ≢ j → lookup j (insert k v d) ≡ lookup j d
lookup-insert_other j k v d n = ground (arith, lookup-insert j k v d, eq_iff k j)

pub should_popout_stored :
    (name model stored : String) (m : RegionManager)
    → lookup model m.stored ≡ some stored
    → should_popout_from_region name model m ≡ not (stored === name)
unfolding should_popout_from_region
should_popout_stored name model stored m e = ground arith

-- Closing the popout of a model removes its registration and calls its one callback.
pub closed_region :
    (name model : String) (pop : Region)
    → filter (matches model none) pop.registrations ≡ []
    → let closed = remove_from_region model true none (with_registration (popped name model) pop) in
      (closed.0.registrations ≡ others model pop.registrations)
      × (closed.1 ≡ record { region_name = name; model_id = model } ∷ [])
unfolding remove_from_region
closed_region name model pop e = (
  filter-append (λ r. not (matches model none r)) pop.registrations (popped name model ∷ [])
      ∙ kept_alone name model (others model pop.registrations),
  ap (callbacks true) (
        filter-append (matches model none) pop.registrations (popped name model ∷ [])
        ∙ ap (◌++ filter (matches model none) (popped name model ∷ [])) e)
      ∙ called_once name model,
)
