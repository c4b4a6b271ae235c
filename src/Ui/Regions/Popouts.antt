-- ===== src/Ui/Regions/Popouts.antt =====
-- Popping a model out of its region and closing the popout.
use reactive_trader_cloud.Common.{
  ◌≡◌, ◌≢◌, refl, sym, ◌∙◌, String, true, false, none, some, List, [], ◌∷◌, ◌++◌, filter, arith,
  eq_iff, eq_refl,
}
use reactive_trader_cloud.Common.Dict.{lookup, insert, lookup-insert}
use reactive_trader_cloud.Common.Result.{returns}
use reactive_trader_cloud.Ui.Regions.{
  ReturnTo, plain, Region, RegionManager, matches, remove_from_region, should_popout_from_region,
  in_region, popout, call_back, popout_closed,
}
use reactive_trader_cloud.Ui.Regions.Steps.{
  held, others, popped, remove_eq, with_registration, add_eq, lookup-insert_same,
  lookup-insert_other, should_popout_stored, closed_region,
}

module _ (name model : String) (m : RegionManager) (region pop : Region)
    (h : lookup name m.regions ≡ some region) (k : lookup "popout" m.regions ≡ some pop)
    (apart : name ≢ "popout") (simple : pop.kind ≡ plain) (persists : m.persists ≡ true) where
  abbrev left : Region
  left = (remove_from_region model false none region).0

  abbrev popped_out : RegionManager
  popped_out = record {
    regions =
        insert "popout" (with_registration (popped name model) pop) (insert name left m.regions);
    persists = m.persists;
    stored = insert model "popout" m.stored;
  }

  popout_eq :
      popout name model m
      ≡ returns (popped_out, (remove_from_region model false none region).1 ++ [])
  unfolding popout
  popout_eq =
      let n : RegionManager = record m { regions = insert name left m.regions } in
      let there : lookup "popout" (insert name left m.regions) ≡ some pop =
        ground (arith, lookup-insert "popout" name left m.regions, eq_iff name "popout") in
      rw
        (
          remove_eq name model false m region h,
          add_eq "popout" (popped name model) n pop there simple persists,
        )
        refl

module _ (name model : String) (m : RegionManager) (region pop : Region)
    (h : lookup name m.regions ≡ some region) (k : lookup "popout" m.regions ≡ some pop)
    (apart : name ≢ "popout") (plain_region : region.kind ≡ plain) (simple : pop.kind ≡ plain)
    (persists : m.persists ≡ true) (free : filter (matches model none) pop.registrations ≡ []) where
  abbrev out : RegionManager
  out = popped_out name model m region pop h k apart simple persists

  abbrev kept_pop : Region
  kept_pop = (remove_from_region model true none (with_registration (popped name model) pop)).0

  abbrev back_in : RegionManager
  back_in = record {
    regions =
        insert name
          (with_registration (in_region model) (remove_from_region model false none region).0)
          (insert "popout" kept_pop out.regions);
    persists = m.persists;
    stored = insert model name out.stored;
  }

  closed_eq : (effects : List ReturnTo) × (popout_closed model out ≡ returns (back_in, effects))
  unfolding popout_closed call_back remove_from_region
  closed_eq =
      let n : RegionManager = record out { regions = insert "popout" kept_pop out.regions } in
      let there : lookup "popout" out.regions ≡ some (with_registration (popped name model) pop) =
        lookup-insert_same "popout" (with_registration (popped name model) pop)
          (insert name (left name model m region pop h k apart simple persists) m.regions) in
      let home : lookup name n.regions ≡ some (remove_from_region model false none region).0 =
        lookup-insert_other name "popout" kept_pop out.regions (λ e. apart (sym e))
        ∙ lookup-insert_other name "popout" (with_registration (popped name model) pop)
            (insert name (left name model m region pop h k apart simple persists) m.regions)
            (λ e. apart (sym e))
        ∙ lookup-insert_same name (left name model m region pop h k apart simple persists)
            m.regions in
      let kind : (remove_from_region model false none region).0.kind ≡ plain = plain_region in
      (
        [],
        rw
            (
              remove_eq "popout" model true out (with_registration (popped name model) pop) there,
              (closed_region name model pop free).1,
              add_eq name (in_region model) n (remove_from_region model false none region).0 home
                  kind persists,
            )
            refl,
      )

  out_regions : held name out ≡ some (others model region.registrations)
  unfolding remove_from_region
  out_regions =
      let e =
        lookup-insert_other name "popout" (with_registration (popped name model) pop)
          (insert name (left name model m region pop h k apart simple persists) m.regions)
          (λ e. apart (sym e))
        ∙ lookup-insert_same name (left name model m region pop h k apart simple persists)
            m.regions in
      ground arith

  back_regions :
      (held name back_in ≡ some (others model region.registrations ++ in_region model ∷ []))
      × (held "popout" back_in ≡ some (others model pop.registrations))
  unfolding remove_from_region
  back_regions =
      let home =
        with_registration (in_region model) (remove_from_region model false none region).0 in
      let rest = insert "popout" kept_pop out.regions in
      let e = lookup-insert_same name home rest in
      let f =
        lookup-insert_other "popout" name home rest apart
        ∙ lookup-insert_same "popout" kept_pop out.regions in
      let g = (closed_region name model pop free).0 in (ground arith, ground arith)

  stored_out : should_popout_from_region name model out ≡ true
  stored_out =
      should_popout_stored name model "popout" out (lookup-insert_same model "popout" m.stored)
      ∙ ground (arith, eq_iff "popout" name)

  stored_back : should_popout_from_region name model back_in ≡ false
  stored_back =
      should_popout_stored name model name back_in (lookup-insert_same model name out.stored)
      ∙ rw (eq_refl name) refl

  -- For a manager that persists, a model in a plain region and a popout region that does not hold
  -- it: popping the model out takes it from its region and stores that it is to be popped out;
  -- closing the popout then puts it back at the end of its region, takes it from the popout
  -- region, and stores that it is not to be popped out.
  pub popout-popout_closed :
      (m1 : RegionManager) × (e1 : List ReturnTo) × (m2 : RegionManager) × (e2 : List ReturnTo)
      × (popout name model m ≡ returns (m1, e1))
      × (popout_closed model m1 ≡ returns (m2, e2))
      × (held name m1 ≡ some (others model region.registrations))
      × (should_popout_from_region name model m1 ≡ true)
      × (held name m2 ≡ some (others model region.registrations ++ in_region model ∷ []))
      × (held "popout" m2 ≡ some (others model pop.registrations))
      × (should_popout_from_region name model m2 ≡ false)
  popout-popout_closed = (
    out,
    _,
    back_in,
    closed_eq.0,
    popout_eq name model m region pop h k apart simple persists,
    closed_eq.1,
    out_regions,
    stored_out,
    back_regions.0,
    back_regions.1,
    stored_back,
  )
