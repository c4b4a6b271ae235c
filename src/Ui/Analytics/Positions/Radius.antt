-- ===== src/Ui/Analytics/Positions/Radius.antt =====
-- The domain of the bubbles' radius.
use reactive_trader_cloud.Common.{
  ℕ, ◌≤◌, ◌<◌, not, some, List, [], ◌∷◌, map, ◌==◌, if◌then◌else◌, fold, filter, min, max, ◌≡◌,
  refl, subst, arith, All,
}
use reactive_trader_cloud.Common.Int.{abs}
use reactive_trader_cloud.Services.Models.{CurrencyPairPosition}
use reactive_trader_cloud.Ui.Analytics.Positions.{
  Position, is_zero, aggregate, position_of, get_positions_data_from_series, largest, smallest,
  Domain, radius_domain,
}

-- A positive amount in the domain.
abbrev pub IsWithin : Domain → Position → Type 0
IsWithin d p = (d.min_value ≤ abs p.base_traded_amount) × (abs p.base_traded_amount ≤ d.max_value)

-- The ends of a domain are different, and it holds every amount.
pub record IsProper (positions : List Position) (d : Domain) : Type 0 where
  pub apart : d.min_value < d.max_value
  pub within : All (IsWithin d) positions

abbrev IsPositive : Position → Type 0
IsPositive p = 0 < abs p.base_traded_amount

filter-IsPositive :
    (ps : List Position)
    → All IsPositive (filter (λ (p : Position). not (is_zero p.base_traded_amount)) ps)
unfolding filter abs
filter-IsPositive [] = tt
filter-IsPositive (p ∷ ps) = ground (arith, filter-IsPositive ps)

abbrev IsInRange : List Position → ℕ → ℕ → Type 0
IsInRange ps low high =
    All (λ p. (low ≤ abs p.base_traded_amount) × (abs p.base_traded_amount ≤ high)) ps

widen :
    (ps : List Position) (low high low' high' : ℕ)
    → low' ≤ low
    → high ≤ high'
    → IsInRange ps low high
    → IsInRange ps low' high'
widen [] low high low' high' h k b = tt
widen (p ∷ ps) low high low' high' h k b =
    ((omega (arith, h, b.0.0), omega (arith, k, b.0.1)), widen ps low high low' high' h k b.1)

-- The extremes of amounts that are positive.
ends :
    (p : Position) (ps : List Position)
    → All IsPositive (p ∷ ps)
    → (low high : ℕ) × (smallest (p ∷ ps) ≡ some low)
      × (largest (p ∷ ps) ≡ some high)
      × (0 < low)
      × (low ≤ high)
      × IsInRange (p ∷ ps) low high
unfolding smallest largest
ends p [] h = (
  abs p.base_traded_amount,
  abs p.base_traded_amount,
  refl,
  refl,
  h.0,
  omega arith,
  ((omega arith, omega arith), tt),
)
ends p (q ∷ ps) h =
    let (low, high, e, f, above, order, b) = ends q ps h.1 in
    let a = abs p.base_traded_amount in
    (
      min a low,
      max a high,
      rw e refl,
      rw f refl,
      ground (arith, h.0, above),
      ground (arith, order),
      (
        (ground arith, ground arith),
        widen (q ∷ ps) low high (min a low) (max a high) (ground arith) (ground arith) b,
      ),
    )

radius_domain_eq :
    (ps : List Position) (low high : ℕ)
    → smallest ps ≡ some low
    → largest ps ≡ some high
    → radius_domain ps
      ≡ some (record { min_value = if low == high then 0 else low; max_value = high })
unfolding radius_domain
radius_domain_eq ps low high e f = ground arith

domain-IsProper :
    (p : Position) (ps : List Position)
    → All IsPositive (p ∷ ps)
    → (d : Domain) × (radius_domain (p ∷ ps) ≡ some d) × IsProper (p ∷ ps) d
domain-IsProper p ps h =
    let (low, high, e, f, above, order, b) = ends p ps h in
    let least : ℕ = if low == high then 0 else low in
    (
      record { min_value = least; max_value = high },
      radius_domain_eq (p ∷ ps) low high e f,
      record {
        apart = ground (arith, order, above);
        within = widen (p ∷ ps) low high least high (ground arith) (omega arith) b;
      },
    )

-- If the chart shows a position, the domain of the bubbles' radius has two different ends and holds the
-- size of every position that is shown.
pub radius_domain-IsProper :
    (series : List CurrencyPairPosition) (p : Position) (ps : List Position)
    → get_positions_data_from_series series ≡ p ∷ ps
    → (d : Domain) × (radius_domain (p ∷ ps) ≡ some d) × IsProper (p ∷ ps) d
unfolding get_positions_data_from_series
radius_domain-IsProper series p ps e =
    domain-IsProper p ps
      (subst (All IsPositive) e (filter-IsPositive (map position_of (fold aggregate [] series))))
