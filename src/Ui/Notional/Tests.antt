-- ===== src/Ui/Notional/Tests.antt =====
-- The notional input on concrete texts, and its theorems there.
use Prim.Native.Char.{code}
use reactive_trader_cloud.Common.{
  ℕ, ◌+◌, ◌/◌, ◌%◌, ◌^◌, any, ◌≡◌, refl, String, Bool, List, [], ◌∷◌, ◌++◌, arith,
}
use reactive_trader_cloud.Services.Models.Decimals.{Decimal}
use reactive_trader_cloud.Ui.Notional.{
  convert_notional_shorthand_to_numeric_value, process_notional, changed, shown,
  has_shorthand_input,
}
use reactive_trader_cloud.Ui.Notional.Editing.{
  dots, enter, character, passed, thrown, handle_key_press, Action, press, blur, act, act_all,
}
use reactive_trader_cloud.Ui.Notional.Texts.{IsFormatted, IsTyped}
use reactive_trader_cloud.Ui.Notional.Values.{
  lower_k, IsBelow, suffix_text, convert_notional_shorthand_to_numeric_value-amount,
  process_notional-IsBelow,
}
use reactive_trader_cloud.Ui.Notional.Keys.{act_all-IsNotional}

abbrev codes : String → List ℕ
codes String.[] = []
codes (String.◌∷◌ c s) = code c ∷ codes s

abbrev worth : ℕ → ℕ → Decimal
worth m s = record { mantissa = m; scale = s }

convert-dots : convert_notional_shorthand_to_numeric_value (codes "1.25m") ≡ worth 125000000 2
unfolding convert_notional_shorthand_to_numeric_value
convert-dots = refl

convert-letters : convert_notional_shorthand_to_numeric_value (codes "12kk") ≡ worth 0 0
unfolding convert_notional_shorthand_to_numeric_value
convert-letters = refl

convert-zero : convert_notional_shorthand_to_numeric_value (codes "0k") ≡ worth 1000 0
unfolding convert_notional_shorthand_to_numeric_value
convert-zero = refl

abbrev plain_format : Decimal → Bool → List ℕ
plain_format d dot = []

convert_notional_shorthand_to_numeric_value-amount_example :
    convert_notional_shorthand_to_numeric_value (codes "1,250" ++ suffix_text lower_k)
    ≡ worth 1250000 0
unfolding any
convert_notional_shorthand_to_numeric_value-amount_example =
    convert_notional_shorthand_to_numeric_value-amount (codes "1,250") lower_k
      (refl, (refl, (refl, (refl, (refl, tt))))) refl

process_notional-IsBelow_example :
    (d : Decimal) × (display : List ℕ) × (process_notional plain_format 1000000000 (codes "2000m")
      ≡ changed d ∷ shown display ∷ [])
    × IsBelow 1000000000 d
process_notional-IsBelow_example =
    process_notional-IsBelow plain_format 1000000000 (codes "2000m") (omega arith)

-- A format of whole numbers below 10000.
abbrev small_format : Decimal → Bool → List ℕ
small_format d dot =
    let n = d.mantissa / 10 ^ d.scale in
    (48 + n / 1000 % 10) ∷ 44 ∷ (48 + n / 100 % 10) ∷ (48 + n / 10 % 10) ∷ (48 + n % 10) ∷ []

small_format-IsFormatted : (d : Decimal) (dot : Bool) → IsFormatted (small_format d dot)
unfolding dots
small_format-IsFormatted d dot = record {
  characters = (ground arith, (refl, (ground arith, (ground arith, (ground arith, tt)))));
  one_dot = ground arith;
}

handle_key_press-first_dot :
    handle_key_press small_format 10000 (codes "12") (character 46)
    ≡ (thrown "Cannot read property 'length' of null", [])
unfolding handle_key_press
handle_key_press-first_dot = refl

handle_key_press-enter :
    handle_key_press small_format 10000 (codes "5") enter
    ≡ (passed, changed (worth 5 0) ∷ shown (codes "0,005") ∷ [])
unfolding handle_key_press process_notional
handle_key_press-enter = refl

-- The text is selected and 5 typed over it, then K; the last 0 is taken out and a dot typed.
abbrev actions : List Action
actions =
    press 0 5 (character 53)
    ∷ press 1 0 (character 75)
    ∷ press 5 0 (character 8)
    ∷ press 4 0 (character 46)
    ∷ press 5 0 (character 120)
    ∷ []

act_all-actions : act_all small_format 10000 (codes "0,001") actions ≡ codes "5,00."
unfolding act_all process_notional has_shorthand_input
act_all-actions = refl

act_all-enter : act_all small_format 10000 (codes "12") (press 1 0 enter ∷ []) ≡ codes "0,012"
unfolding act_all process_notional
act_all-enter = refl

act_all-IsNotional_example :
    let text = act_all small_format 10000 (codes "0,001") actions in
    IsTyped text
    × IsFormatted (act small_format 10000 text (press 5 0 enter))
    × IsFormatted (act small_format 10000 text blur)
unfolding dots has_shorthand_input any
act_all-IsNotional_example =
    act_all-IsNotional small_format 10000 (codes "0,001") actions 5 0 (omega arith)
      (λ d dot h. small_format-IsFormatted d dot)
      (record {
        characters = (refl, (refl, (refl, (refl, (refl, tt)))));
        one_dot = omega arith;
        converted = refl;
      })
