-- ===== src/Ui/Notional/Values.antt =====
-- What a notional that is typed or formatted is worth.
use reactive_trader_cloud.Common.{
  ℕ, ◌+◌, ◌-◌, ◌*◌, ◌^◌, ◌<◌, Bool, true, false, ◌||◌, Option, none, some, List, [], ◌∷◌, ◌++◌,
  filter, length, ◌==◌, if◌then◌else◌, any, All, ◌≡◌, refl, ap, ◌∙◌, arith,
}
use reactive_trader_cloud.Services.Models.Decimals.{Decimal}
use reactive_trader_cloud.Ui.Notional.{
  is_digit, to_upper, normalise, split_numerals, UnitLetter, thousands, millions, Match, match_rest,
  match_shorthand, number_from, number_or_one, factor, convert_notional_shorthand_to_numeric_value,
  limited, process_notional, ends_in_dot, changed, shown,
}

-- A digit or a comma.
abbrev pub is_amount : ℕ → Bool
is_amount c = is_digit c || c == 44

-- The number that digits spell after one that was read, whatever commas are between them.
abbrev pub value : ℕ → List ℕ → ℕ
value n [] = n
value n (c ∷ cs) = if c == 44 then value n cs else value (n * 10 + (c - 48)) cs

-- No unit, or K, k, M, m.
pub data Suffix : Type 0 where
  plain upper_k lower_k upper_m lower_m : Suffix

abbrev pub suffix_text : Suffix → List ℕ
suffix_text plain = []
suffix_text upper_k = 75 ∷ []
suffix_text lower_k = 107 ∷ []
suffix_text upper_m = 77 ∷ []
suffix_text lower_m = 109 ∷ []

abbrev pub letter_of : Suffix → Option UnitLetter
letter_of plain = none
letter_of upper_k = some thousands
letter_of lower_k = some thousands
letter_of upper_m = some millions
letter_of lower_m = some millions

abbrev letter_text : Option UnitLetter → List ℕ
letter_text none = []
letter_text (some thousands) = 75 ∷ []
letter_text (some millions) = 77 ∷ []

has_digit : List ℕ → Bool
unfolding any
has_digit text = any is_digit text

normalise-suffix : (s : Suffix) → normalise (suffix_text s) ≡ letter_text (letter_of s)
unfolding normalise
normalise-suffix plain = refl
normalise-suffix upper_k = refl
normalise-suffix lower_k = refl
normalise-suffix upper_m = refl
normalise-suffix lower_m = refl

split_numerals-amount :
    (text : List ℕ) (s : Suffix)
    → All (λ c. is_amount c ≡ true) text
    → split_numerals (normalise (text ++ suffix_text s))
      ≡ (normalise text, letter_text (letter_of s))
unfolding split_numerals normalise to_upper filter
split_numerals-amount [] plain a = refl
split_numerals-amount [] upper_k a = refl
split_numerals-amount [] lower_k a = refl
split_numerals-amount [] upper_m a = refl
split_numerals-amount [] lower_m a = refl
split_numerals-amount (c ∷ cs) s a = ground (arith, a.0, split_numerals-amount cs s a.1)

number_from-amount :
    (n : ℕ) (seen : Bool) (text : List ℕ)
    → All (λ c. is_amount c ≡ true) text
    → number_from n seen (normalise text) ≡ (
        if seen || has_digit text
        then some (record { mantissa = value n text; scale = 0 })
        else none)
unfolding number_from normalise to_upper filter has_digit any
number_from-amount n seen [] a = ground arith
number_from-amount n seen (c ∷ cs) a = ground (
  arith,
  a.0,
  number_from-amount n seen cs a.1,
  number_from-amount (n * 10 + (c - 48)) true cs a.1,
)

not_empty :
    (text : List ℕ) (s : Suffix)
    → All (λ c. is_amount c ≡ true) text
    → has_digit text ≡ true
    → (length (normalise (text ++ suffix_text s)) == 0) ≡ false
unfolding normalise to_upper filter has_digit any
not_empty [] s a h = cc
not_empty (c ∷ cs) s a h = ground (arith, a.0, not_empty cs s a.1)

match_rest-letter :
    (numerals : List ℕ) (o : Option UnitLetter)
    → match_rest numerals (letter_text o) ≡ some (record { numerals = numerals; letter = o })
unfolding match_rest
match_rest-letter numerals none = refl
match_rest-letter numerals (some thousands) = refl
match_rest-letter numerals (some millions) = refl

-- A notional of 0 becomes 1.
abbrev pub at_least_one : ℕ → ℕ
at_least_one n = if n == 0 then 1 else n

number_or_one-amount :
    (text : List ℕ)
    → All (λ c. is_amount c ≡ true) text
    → has_digit text ≡ true
    → number_or_one (normalise text) ≡ record { mantissa = at_least_one (value 0 text); scale = 0 }
unfolding number_or_one
number_or_one-amount text a h = ground (arith, number_from-amount 0 false text a, h)

match_shorthand-amount :
    (text : List ℕ) (s : Suffix)
    → All (λ c. is_amount c ≡ true) text
    → match_shorthand (normalise (text ++ suffix_text s))
      ≡ some (record { numerals = normalise text; letter = letter_of s })
unfolding match_shorthand
match_shorthand-amount text s a =
    ap (λ r. match_rest r.0 r.1) (split_numerals-amount text s a)
    ∙ match_rest-letter (normalise text) (letter_of s)

converted_eq :
    (text : List ℕ) (m : Match)
    → (length (normalise text) == 0) ≡ false
    → match_shorthand (normalise text) ≡ some m
    → convert_notional_shorthand_to_numeric_value text ≡ record {
      mantissa = (number_or_one m.numerals).mantissa * factor m.letter;
      scale = (number_or_one m.numerals).scale;
    }
unfolding convert_notional_shorthand_to_numeric_value
converted_eq text m e f = rw (e, f) refl

-- A text of digits with commas at any places is worth the number that its digits spell, times a thousand
-- with K or k after it and times a million with M or m; a 0 is taken for 1.
pub convert_notional_shorthand_to_numeric_value-amount :
    (text : List ℕ) (s : Suffix)
    → All (λ c. is_amount c ≡ true) text
    → any is_digit text ≡ true
    → convert_notional_shorthand_to_numeric_value (text ++ suffix_text s)
      ≡ record { mantissa = at_least_one (value 0 text) * factor (letter_of s); scale = 0 }
unfolding has_digit
convert_notional_shorthand_to_numeric_value-amount text s a h =
    converted_eq (text ++ suffix_text s)
      (record { numerals = normalise text; letter = letter_of s }) (not_empty text s a h)
      (match_shorthand-amount text s a)
    ∙ ap (λ (d : Decimal). record { mantissa = d.mantissa * factor (letter_of s); scale = d.scale })
        (number_or_one-amount text a h)

abbrev pub IsBelow : ℕ → Decimal → Type 0
IsBelow n d = d.mantissa < n * 10 ^ d.scale

-- The number that the parent is sent is below a positive maximum, whatever the text is.
pub process_notional-IsBelow :
    (format : Decimal → Bool → List ℕ) (max_value : ℕ) (text : List ℕ)
    → 0 < max_value
    → (d : Decimal) × (display : List ℕ) × (process_notional format max_value text
        ≡ changed d ∷ shown display ∷ [])
      × IsBelow max_value d
unfolding process_notional limited
process_notional-IsBelow format max_value text h =
    let d = limited max_value (convert_notional_shorthand_to_numeric_value text) in
    (d, format d (ends_in_dot text), refl, ground (arith, h))
