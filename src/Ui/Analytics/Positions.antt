-- ===== src/Ui/Analytics/Positions.antt =====
-- src/client/src/ui/analytics/views/positions-chart/chartUtil.js: the positions per currency that the
-- bubble chart draws, and the scale of the bubbles' sizes.
pub mod Totals
pub mod Radius
use reactive_trader_cloud.Common.{
  ℕ, String, Bool, true, false, not, Option, none, some, List, [], ◌∷◌, map, ◌==◌, ◌===◌,
  if◌then◌else◌, fold, filter, find, min, max,
}
use reactive_trader_cloud.Common.Int.{ℤ, pos, negsuc, ◌+ℤ◌, abs}
use reactive_trader_cloud.Common.Dict.{Dict, lookup, insert}
use reactive_trader_cloud.Services.Models.{CurrencyPairPosition}

pub record Position : Type 0 where
  pub symbol : String
  pub base_traded_amount : ℤ

-- A number is truthy if it is not 0.
abbrev pub is_zero : ℤ → Bool
is_zero (pos n) = n == 0
is_zero (negsuc n) = false

-- The new total of a currency, from the old one.
abbrev pub added : Option ℤ → ℤ → ℤ
added none a = a
added (some t) a = if is_zero t then a else t +ℤ a

unfoldable pub aggregate : Dict ℤ → CurrencyPairPosition → Dict ℤ
unfolding lookup insert
aggregate totals p =
    let base = p.currency_pair.base in
    insert base (added (lookup base totals) p.base_traded_amount) totals

abbrev pub position_of : String × ℤ → Position
position_of (key, amount) = record { symbol = key; base_traded_amount = amount }

unfoldable pub get_positions_data_from_series : List CurrencyPairPosition → List Position
unfolding fold aggregate filter
get_positions_data_from_series series =
    filter (λ (p : Position). not (is_zero p.base_traded_amount))
      (map position_of (fold aggregate [] series))

-- `_.max` and `_.min` of the amounts; `none` is the undefined of no amounts.
unfoldable pub largest : List Position → Option ℕ
unfolding abs
largest [] = none
largest (p ∷ ps) = elim (largest ps) [
  | none ↦ some (abs p.base_traded_amount)
  | some m ↦ some (max (abs p.base_traded_amount) m)
]

unfoldable pub smallest : List Position → Option ℕ
unfolding abs
smallest [] = none
smallest (p ∷ ps) = elim (smallest ps) [
  | none ↦ some (abs p.base_traded_amount)
  | some m ↦ some (min (abs p.base_traded_amount) m)
]

-- The domain of the radius; equal ends are pulled apart.
pub record Domain : Type 0 where
  pub min_value : ℕ
  pub max_value : ℕ

unfoldable pub radius_domain : List Position → Option Domain
unfolding largest smallest
radius_domain positions = elim (smallest positions) [
  | none ↦ none
  | some low ↦ elim (largest positions) [
    | none ↦ none
    | some high ↦ some (record { min_value = if low == high then 0 else low; max_value = high })
  ]
]

-- `getPositionValue`; the format of the number is numeral's.
unfoldable pub get_position_value : (ℤ → String) → String → List Position → String
unfolding find
get_position_value format id positions = elim (find (λ (p : Position). p.symbol === id) positions) [
  | none ↦ ""
  | some p ↦ format p.base_traded_amount
]
