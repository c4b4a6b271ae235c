-- ===== src/Ui/Analytics/Bars/Positions.antt =====
-- The percentages of the charts are between 0 and 100.
use reactive_trader_cloud.Common.{
  ℕ, ◌*◌, ◌≤◌, ◌<◌, String, Option, none, some, List, [], ◌∷◌, map, max, All, arith,
}
use reactive_trader_cloud.Common.Int.{ℤ, pos, abs, ◌≤ℤ◌, max_ℤ, min_ℤ}
use reactive_trader_cloud.Services.Models.{CurrencyPairPosition, HistoricPosition}
use reactive_trader_cloud.Ui.Analytics.{update}
use reactive_trader_cloud.Ui.Analytics.Bounds.{update-IsBounded}
use reactive_trader_cloud.Ui.Analytics.Bars.{
  Percent, Stops, Gradients, create_gradients, update_stops, max_profit, min_profit, max_width,
  get_relative_pointer_position, pointers,
}

-- From 0 to 100 percent.
abbrev pub IsOnScale : Percent → Type 0
IsOnScale p =
    (0 < p.denominator) × (pos 0 ≤ℤ p.numerator) × (p.numerator ≤ℤ pos (100 * p.denominator))

abbrev pub AreStops : Stops → Type 0
AreStops s =
    IsOnScale s.green_start × IsOnScale s.green_end × IsOnScale s.red_start × IsOnScale s.red_end

pub create_gradients-AreStops : AreStops create_gradients.area × AreStops create_gradients.stroke
unfolding create_gradients
create_gradients-AreStops = ground arith

update_stops-IsOnScale :
    (low high : ℤ) (g : Gradients)
    → low ≤ℤ pos 0
    → pos 0 ≤ℤ high
    → AreStops g.area × AreStops g.stroke
    → AreStops (update_stops low high g).area × AreStops (update_stops low high g).stroke
unfolding update_stops abs
update_stops-IsOnScale low high g l h s = ground arith

-- After an update of the profit chart, the stops of both its gradients are from 0 to 100 percent, if
-- those before were.
pub update_stops-update :
    (to_fixed : ℤ → String) (items : List HistoricPosition) (g : Gradients)
    → AreStops g.area × AreStops g.stroke
    → let m = update to_fixed (some items) in
      AreStops (update_stops m.min_pnl m.max_pnl g).area
      × AreStops (update_stops m.min_pnl m.max_pnl g).stroke
update_stops-update to_fixed items g s =
    let b = (update-IsBounded to_fixed items).0 in
    let m = update to_fixed (some items) in
    update_stops-IsOnScale m.min_pnl m.max_pnl g b.below b.above s

-- The extremes of some profits.
abbrev IsBetween : ℤ → ℤ → ℤ → Type 0
IsBetween low high p = (low ≤ℤ p) × (p ≤ℤ high)

max_profit-bounds :
    (first : ℤ) (ps : List ℤ)
    → (first ≤ℤ max_profit first ps) × All (λ p. p ≤ℤ max_profit first ps) ps
unfolding max_profit max_ℤ
max_profit-bounds first [] = (ground arith, tt)
max_profit-bounds first (p ∷ ps) =
    let (h, rest) = max_profit-bounds (max_ℤ first p) ps in
    (ground (arith, h), (ground (arith, h), rest))

min_profit-bounds :
    (first : ℤ) (ps : List ℤ)
    → (min_profit first ps ≤ℤ first) × All (λ p. min_profit first ps ≤ℤ p) ps
unfolding min_profit min_ℤ
min_profit-bounds first [] = (ground arith, tt)
min_profit-bounds first (p ∷ ps) =
    let (h, rest) = min_profit-bounds (min_ℤ first p) ps in
    (ground (arith, h), (ground (arith, h), rest))

abs-between : (low high p : ℤ) → low ≤ℤ p → p ≤ℤ high → abs p ≤ max (abs high) (abs low)
unfolding abs
abs-between low high p l h = ground arith

abs-between-All :
    (low high : ℤ) (ps : List ℤ)
    → All (λ p. low ≤ℤ p) ps
    → All (λ p. p ≤ℤ high) ps
    → All (λ p. abs p ≤ max (abs high) (abs low)) ps
abs-between-All low high [] l h = tt
abs-between-All low high (p ∷ ps) l h =
    (abs-between low high p l.0 h.0, abs-between-All low high ps l.1 h.1)

within_width : (first : ℤ) (ps : List ℤ) → All (λ p. abs p ≤ max_width first ps) (first ∷ ps)
unfolding max_width
within_width first ps =
    let (h, hs) = max_profit-bounds first ps in
    let (l, ls) = min_profit-bounds first ps in
    abs-between-All (min_profit first ps) (max_profit first ps) (first ∷ ps) (l, ls) (h, hs)

-- On the scale, or not a number.
abbrev pub MaybeOnScale : Option Percent → Type 0
MaybeOnScale none = Unit
MaybeOnScale (some p) = IsOnScale p

pointer-IsOnScale :
    (width : ℕ) (p : ℤ) → abs p ≤ width → MaybeOnScale (get_relative_pointer_position width p)
unfolding get_relative_pointer_position abs
pointer-IsOnScale width p h = ground arith

pointers-IsOnScale :
    (width : ℕ) (ps : List CurrencyPairPosition)
    → All (λ p. abs p ≤ width) (map (λ q. q.base_pnl) ps)
    → All MaybeOnScale (map (λ q. get_relative_pointer_position width q.base_pnl) ps)
pointers-IsOnScale width [] h = tt
pointers-IsOnScale width (p ∷ ps) h =
    (pointer-IsOnScale width p.base_pnl h.0, pointers-IsOnScale width ps h.1)

-- The pointer of every bar stands from 0 to 100 percent, or is not a number where all profits are 0.
pub pointers-MaybeOnScale : (ps : List CurrencyPairPosition) → All MaybeOnScale (pointers ps)
unfolding pointers
pointers-MaybeOnScale [] = tt
pointers-MaybeOnScale (p ∷ ps) =
    let profits = map (λ (q : CurrencyPairPosition). q.base_pnl) ps in
    pointers-IsOnScale (max_width p.base_pnl profits) (p ∷ ps) (within_width p.base_pnl profits)
