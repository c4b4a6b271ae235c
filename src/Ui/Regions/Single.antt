-- ===== src/Ui/Regions/Single.antt =====
-- Regions that show one model at a time.
use reactive_trader_cloud.Common.{
  ◌≤◌, ◌≡◌, refl, String, Bool, false, not, Option, List, [], ◌∷◌, ◌++◌, filter, length, arith,
  Bool-cases, inl, inr,
}
use reactive_trader_cloud.Ui.Regions.{
  Registration, single_item, Region, matches, remove_from_region, make_room, add_to_region,
  toggle_is_collapsed,
}

-- What is asked of a region.
pub data Request : Type 0 where
  adds : Registration → Request
  removes : String → Bool → Option String → Request
  toggles : Request

unfoldable pub serve : Region → List Request → Region
serve region [] = region
serve region (adds r ∷ rest) = serve (add_to_region r region).0 rest
serve region (removes model external context ∷ rest) =
    serve (remove_from_region model external context region).0 rest
serve region (toggles ∷ rest) = serve (toggle_is_collapsed region) rest

length-filter : {A : Type 0} (p : A → Bool) (xs : List A) → length (filter p xs) ≤ length xs
unfolding filter
length-filter p [] = omega arith
length-filter p (x ∷ xs) = elim (Bool-cases (p x)) [
  | inl e ↦ ground (arith, length-filter p xs)
  | inr e ↦ ground (arith, length-filter p xs)
]

single_add :
    (r : Registration) (region : Region)
    → region.kind ≡ single_item
    → let region' = (add_to_region r region).0 in
      (region'.registrations ≡ r ∷ [])
      × (region'.is_collapsed ≡ false)
      × (region'.kind ≡ single_item)
unfolding add_to_region make_room
single_add r region e = rw e (refl, refl, refl)

serve-single :
    (requests : List Request) (region : Region)
    → region.kind ≡ single_item
    → length region.registrations ≤ 1
    → (length (serve region requests).registrations ≤ 1)
      × ((serve region requests).kind ≡ single_item)
unfolding serve remove_from_region toggle_is_collapsed
serve-single [] region e h = (h, e)
serve-single (adds r ∷ rest) region e h =
    let (one, shown, kind) = single_add r region e in
    serve-single rest (add_to_region r region).0 kind (rw one (omega arith))
serve-single (removes model external context ∷ rest) region e h =
    serve-single rest (remove_from_region model external context region).0 e
      (ground (arith, length-filter (λ r. not (matches model context r)) region.registrations))
serve-single (toggles ∷ rest) region e h = serve-single rest (toggle_is_collapsed region) e h

pub serve_append :
    (before after : List Request) (region : Region)
    → serve region (before ++ after) ≡ serve (serve region before) after
unfolding serve
serve_append [] after region = refl
serve_append (adds r ∷ before) after region = serve_append before after (add_to_region r region).0
serve_append (removes model external context ∷ before) after region =
    serve_append before after (remove_from_region model external context region).0
serve_append (toggles ∷ before) after region =
    serve_append before after (toggle_is_collapsed region)

-- A region for a single item holds at most one registration after any requests, if it did before;
-- after a further model is added, it holds that one alone and is not collapsed.
pub serve-single-add :
    (requests : List Request) (region : Region) (r : Registration)
    → region.kind ≡ single_item
    → length region.registrations ≤ 1
    → let region' = serve region (requests ++ adds r ∷ []) in
      (length (serve region requests).registrations ≤ 1)
      × (region'.registrations ≡ r ∷ [])
      × (region'.is_collapsed ≡ false)
unfolding serve
serve-single-add requests region r e h =
    let (bound, kind) = serve-single requests region e h in
    let (one, shown, kind') = single_add r (serve region requests) kind in
    rw (serve_append requests (adds r ∷ []) region) (bound, one, shown)
