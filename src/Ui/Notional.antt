-- ===== src/Ui/Notional.antt =====
-- src/client/src/ui/spotTile/views/notionalInput.jsx, with the shorthands of
-- src/client/src/system/utils.js. A text is the list of its characters' codes; the format of a number
-- that is put back into the input is a parameter.
pub mod Editing
mod Values
mod Texts
mod Keys
mod Tests
use reactive_trader_cloud.Common.{
  ℕ, zero, suc, ◌+◌, ◌-◌, ◌*◌, ◌^◌, String, Bool, true, false, not, ◌&&◌, ◌||◌, Option, none, some,
  List, [], ◌∷◌, ◌++◌, map, filter, length, ◌==◌, ltb, leb, if◌then◌else◌, any,
}
use reactive_trader_cloud.Common.Result.{Result, throws, returns}
use reactive_trader_cloud.Services.Models.Decimals.{Decimal}

abbrev pub char_code_dot : ℕ
char_code_dot = 46

-- `toUpperCase`: of the characters that the pattern knows, only letters change.
unfoldable pub to_upper : ℕ → ℕ
to_upper c = if leb 97 c && leb c 122 then c - 32 else c

abbrev pub is_digit : ℕ → Bool
is_digit c = leb 48 c && leb c 57

-- `[0-9\.]`
abbrev pub is_numeral : ℕ → Bool
is_numeral c = is_digit c || c == char_code_dot

-- `String(text).toUpperCase().replace(/,/g, '')`
unfoldable pub normalise : List ℕ → List ℕ
unfolding filter to_upper
normalise text = filter (λ c. not (c == 44)) (map to_upper text)

-- The longest prefix of numerals, and the rest.
unfoldable pub split_numerals : List ℕ → List ℕ × List ℕ
split_numerals [] = ([], [])
split_numerals (c ∷ cs) =
    let (numerals, rest) = split_numerals cs in
    if is_numeral c then (c ∷ numerals, rest) else ([], c ∷ cs)

pub data UnitLetter : Type 0 where
  thousands millions : UnitLetter

-- The groups of `numberConvertRegex`; an empty first group is undefined.
pub record Match : Type 0 where
  pub numerals : List ℕ
  pub letter : Option UnitLetter

unfoldable pub match_rest : List ℕ → List ℕ → Option Match
match_rest numerals [] = some (record { numerals = numerals; letter = none })
match_rest numerals (c ∷ []) =
    if c == 75
    then some (record { numerals = numerals; letter = some thousands })
    else if c == 77
    then some (record { numerals = numerals; letter = some millions })
    else none
match_rest numerals (c ∷ d ∷ cs) = none

unfoldable pub match_shorthand : List ℕ → Option Match
unfolding split_numerals match_rest
match_shorthand text = let (numerals, rest) = split_numerals text in match_rest numerals rest

-- `Number` of a text of digits and dots, from the digits that were read; `none` is not a number.
unfoldable pub number_after_dot : Decimal → Bool → List ℕ → Option Decimal
number_after_dot d seen [] = if seen then some d else none
number_after_dot d seen (c ∷ cs) =
    let rest =
      number_after_dot (record { mantissa = d.mantissa * 10 + (c - 48); scale = suc d.scale }) true
        cs in
    if c == char_code_dot then none else rest

unfoldable pub number_from : ℕ → Bool → List ℕ → Option Decimal
unfolding number_after_dot
number_from n seen [] = if seen then some (record { mantissa = n; scale = 0 }) else none
number_from n seen (c ∷ cs) =
    let rest = number_from (n * 10 + (c - 48)) true cs in
    if c == char_code_dot
    then number_after_dot (record { mantissa = n; scale = 0 }) seen cs
    else rest

-- A number that is 0 or not a number is taken for 1.
unfoldable pub number_or_one : List ℕ → Decimal
unfolding number_from
number_or_one numerals = elim (number_from 0 false numerals) [
  | none ↦ record { mantissa = 1; scale = 0 }
  | some d ↦ if d.mantissa == 0 then record { mantissa = 1; scale = 0 } else d
]

abbrev pub factor : Option UnitLetter → ℕ
factor none = 1
factor (some thousands) = 1000
factor (some millions) = 1000000

unfoldable pub convert_notional_shorthand_to_numeric_value : List ℕ → Decimal
unfolding normalise match_shorthand number_or_one
convert_notional_shorthand_to_numeric_value text =
    let upper = normalise text in
    if length upper == 0 then record { mantissa = 0; scale = 0 } else elim (match_shorthand upper) [
      | none ↦ record { mantissa = 0; scale = 0 }
      | some m ↦
          let d = number_or_one m.numerals in
          record { mantissa = d.mantissa * factor m.letter; scale = d.scale }
    ]

unfoldable pub has_shorthand_input : List ℕ → Bool
unfolding normalise match_shorthand
has_shorthand_input text = elim (match_shorthand (normalise text)) [
  | none ↦ false
  | some m ↦ elim m.letter [ none ↦ false | some l ↦ true ]
]

-- What the input does to its parent and to its element.
pub data Effect : Type 0 where
  changed : Decimal → Effect
  shown : List ℕ → Effect

-- `inputValue.indexOf(DOT) === inputValue.length - 1`
unfoldable pub first_dot_last : List ℕ → Bool
first_dot_last [] = false
first_dot_last (c ∷ cs) =
    let rest = first_dot_last cs in if c == char_code_dot then length cs == 0 else rest

unfoldable pub ends_in_dot : List ℕ → Bool
unfolding first_dot_last
ends_in_dot text = length text == 0 || first_dot_last text

-- What is sent to the parent: 0 for a number that is not below the maximum.
unfoldable pub limited : ℕ → Decimal → Decimal
limited max_value d =
    if leb (max_value * 10 ^ d.scale) d.mantissa then record { mantissa = 0; scale = 0 } else d

-- The format of a number, and of a number with a dot after it.
unfoldable pub process_notional : (Decimal → Bool → List ℕ) → ℕ → List ℕ → List Effect
unfolding convert_notional_shorthand_to_numeric_value limited ends_in_dot
process_notional format max_value text =
    let notional = limited max_value (convert_notional_shorthand_to_numeric_value text) in
    changed notional ∷ shown (format notional (ends_in_dot text)) ∷ []
