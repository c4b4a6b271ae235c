-- ===== src/Services/Mappers/Rates.antt =====
-- The constructor of `Rate` (services/model/rate.js) and `PriceMapper._getSpread`. A text with digits
-- is the list of its digits. The difference of two prices and its product with a power of ten are
-- taken exactly.
pub mod Parts
use reactive_trader_cloud.Common.{
  ℕ, zero, suc, ◌+◌, ◌-◌, ◌*◌, ◌/◌, ◌%◌, ◌^◌, min, max, Bool, List, [], ◌∷◌, ◌++◌, if◌then◌else◌,
  ltb, leb, ◌||◌, ◌==◌, length,
}
use reactive_trader_cloud.Common.Result.{Result, returns, throws}
use reactive_trader_cloud.Services.Models.Decimals.{Decimal, less, to_fixed_units}
use reactive_trader_cloud.Services.Models.{Rate, Spread, FixedNumber}

-- The last `precision` digits of a number, the first of them first.
unfoldable pub fixed_digits : ℕ → ℕ → List ℕ
fixed_digits zero n = []
fixed_digits (suc p) n = fixed_digits p (n / 10) ++ (n % 10) ∷ []

abbrev pub take : ℕ → List ℕ → List ℕ
take zero xs = []
take (suc n) [] = []
take (suc n) (x ∷ xs) = x ∷ take n xs

abbrev pub drop : ℕ → List ℕ → List ℕ
drop zero xs = xs
drop (suc n) [] = []
drop (suc n) (x ∷ xs) = drop n xs

-- `substring`: a position below 0 counts as 0, and the smaller position is the start.
unfoldable pub substring : List ℕ → ℕ → ℕ → List ℕ
substring xs a b = drop (min a b) (take (max a b) xs)

-- `Number` of a text of digits; of the empty text it is 0.
unfoldable pub number_from : ℕ → List ℕ → ℕ
number_from acc [] = acc
number_from acc (d ∷ ds) = number_from (acc * 10 + d) ds

-- `toFixed` throws where it is asked for more than 20 digits.
unfoldable pub too_many_digits : ℕ → Bool
too_many_digits n = ltb 20 n

-- `toFixed` gives a number of 10 ^ 21 or more with an exponent in place of the digits.
unfoldable pub has_exponent : Decimal → Bool
has_exponent d = leb (10 ^ 21 * 10 ^ d.scale) d.mantissa

-- At the precision 0, and where an exponent follows the whole number, there is no fraction to take
-- apart, and `fractions` is undefined. (Of a rate with an exponent that has more than one digit not
-- 0, as 1.5e+21, `fractions` is the text 5e+21, whose parts need not be numbers: it is not told from
-- the others with an exponent here.)
unfoldable pub new_rate : Decimal → ℕ → ℕ → Result Rate
unfolding fixed_digits substring number_from to_fixed_units too_many_digits has_exponent
new_rate raw_rate rate_precision pip_precision =
    let units = to_fixed_units raw_rate rate_precision in
    let fractions = fixed_digits rate_precision units in
    let whole_number = units / 10 ^ rate_precision in
    let figure_digits = substring fractions 0 (pip_precision - 2) in
    if too_many_digits rate_precision
    then throws "toFixed() digits argument must be between 0 and 20"
    else if rate_precision == 0 || has_exponent raw_rate
    then throws "Cannot read property 'substring' of undefined"
    else returns (record {
      raw_rate = raw_rate;
      big_figure = record {
        mantissa = number_from whole_number figure_digits;
        scale = length figure_digits;
      };
      pips = number_from 0 (substring fractions (pip_precision - 2) pip_precision);
      pip_fraction = number_from 0 (substring fractions pip_precision (pip_precision + 1));
    })

-- `toFixed` throws where it is asked for a negative number of digits, too. A spread of 10 ^ 21 pips or
-- more, whose text has an exponent, is kept by its digits.
unfoldable pub new_spread : Decimal → Decimal → ℕ → ℕ → Result Spread
unfolding less to_fixed_units too_many_digits
new_spread bid ask rate_precision pips_position =
    let bid_units = bid.mantissa * 10 ^ ask.scale in
    let ask_units = ask.mantissa * 10 ^ bid.scale in
    let crossed = less ask bid in
    let difference : Decimal = record {
      mantissa =
          (if crossed then bid_units - ask_units else ask_units - bid_units) * 10 ^ pips_position;
      scale = bid.scale + ask.scale;
    } in
    let text : FixedNumber = record {
      is_negative = crossed;
      units = to_fixed_units difference (rate_precision - pips_position);
      precision = rate_precision - pips_position;
    } in
    if ltb rate_precision pips_position || too_many_digits (rate_precision - pips_position)
    then throws "toFixed() digits argument must be between 0 and 20"
    else returns (record { value = text; formatted_value = text })
