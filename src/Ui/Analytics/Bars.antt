-- ===== src/Ui/Analytics/Bars.antt =====
-- src/client/src/ui/analytics/views/chart: the stops of the gradient of the profit chart
-- (chartGradient.js), and where the pointer of a profit bar stands (analyticsBarChart.jsx and
-- pnlBar.jsx). A position in percent is a fraction; a division by 0 is not a number.
mod Positions
mod Tests
use reactive_trader_cloud.Common.{
  ℕ, ◌+◌, ◌*◌, Bool, true, false, Option, none, some, List, [], ◌∷◌, map, max, ◌==◌, if◌then◌else◌,
}
use reactive_trader_cloud.Common.Int.{ℤ, pos, abs, ltb_ℤ, sub_ℕ, pos_part, neg_part, max_ℤ, min_ℤ}
use reactive_trader_cloud.Services.Models.{CurrencyPairPosition}

-- numerator / denominator %
pub record Percent : Type 0 where
  pub numerator : ℤ
  pub denominator : ℕ

abbrev pub times : ℕ → ℤ → ℤ
times n a = sub_ℕ (n * pos_part a) (n * neg_part a)

-- The offsets of the stops of a gradient, in the order of the stops.
pub record Stops : Type 0 where
  pub green_start : Percent
  pub green_end : Percent
  pub red_start : Percent
  pub red_end : Percent

abbrev pub percent : ℤ → Percent
percent n = record { numerator = n; denominator = 1 }

-- The area's gradient and the stroke's gradient.
pub record Gradients : Type 0 where
  pub area : Stops
  pub stroke : Stops

-- The offsets that the stops are created with.
unfoldable pub create_gradients : Gradients
create_gradients =
    let stops : Stops = record {
      green_start = percent (pos 0);
      green_end = percent (pos 50);
      red_start = percent (pos 50);
      red_end = percent (pos 100);
    } in
    record { area = stops; stroke = stops }

unfoldable pub update_stops : ℤ → ℤ → Gradients → Gradients
unfolding abs
update_stops domain_min domain_max g =
    let full_range = abs domain_min + abs domain_max in
    let zero_at : Percent = record { numerator = times 100 domain_max; denominator = full_range } in
    let stops : Stops = record {
      green_start = percent (pos 0);
      green_end = zero_at;
      red_start = zero_at;
      red_end = percent (pos 100);
    } in
    if full_range == 0 then g else record { area = stops; stroke = stops }

-- `_.max` and `_.min` of the profits; with no profit there is no bar.
unfoldable pub max_profit : ℤ → List ℤ → ℤ
unfolding max_ℤ
max_profit first [] = first
max_profit first (p ∷ ps) = max_profit (max_ℤ first p) ps

unfoldable pub min_profit : ℤ → List ℤ → ℤ
unfolding min_ℤ
min_profit first [] = first
min_profit first (p ∷ ps) = min_profit (min_ℤ first p) ps

unfoldable pub max_width : ℤ → List ℤ → ℕ
unfolding abs max_profit min_profit
max_width first ps = max (abs (max_profit first ps)) (abs (min_profit first ps))

unfoldable pub get_relative_pointer_position : ℕ → ℤ → Option Percent
unfolding abs
get_relative_pointer_position max_val base_pnl =
    if max_val == 0
    then none
    else some (record {
      numerator =
          if ltb_ℤ (pos 0) base_pnl
          then pos (50 * max_val + 50 * abs base_pnl)
          else sub_ℕ (50 * max_val) (50 * abs base_pnl);
      denominator = max_val;
    })

-- The pointers of the bars of some positions.
unfoldable pub pointers : List CurrencyPairPosition → List (Option Percent)
unfolding max_width get_relative_pointer_position
pointers [] = []
pointers (p ∷ ps) =
    let width = max_width p.base_pnl (map (λ q. q.base_pnl) ps) in
    map (λ q. get_relative_pointer_position width q.base_pnl) (p ∷ ps)
