-- ===== src/Services/Models/Decimals.antt =====
-- The numbers of prices: those that are not negative, as finite decimal fractions. Every finite
-- double is one.
use reactive_trader_cloud.Common.{ℕ, ◌+◌, ◌*◌, ◌/◌, ◌^◌, Bool, ltb}

-- mantissa / 10 ^ scale
pub record Decimal : Type 0 where
  pub mantissa : ℕ
  pub scale : ℕ

-- `a < b`
unfoldable pub less : Decimal → Decimal → Bool
less a b = ltb (a.mantissa * 10 ^ b.scale) (b.mantissa * 10 ^ a.scale)

-- The digits that `toFixed` prints, as one whole number of units 10 ^ -precision: the nearest to
-- the value, and the larger of two that are equally near.
unfoldable pub to_fixed_units : Decimal → ℕ → ℕ
to_fixed_units d precision = (2 * d.mantissa * 10 ^ precision + 10 ^ d.scale) / (2 * 10 ^ d.scale)
