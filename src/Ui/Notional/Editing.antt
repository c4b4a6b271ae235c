-- ===== src/Ui/Notional/Editing.antt =====
-- The handlers of the events of notionalInput.jsx, and what the browser does to the text between
-- them. The rendering of the input by its parent does not touch a text that was edited.
use reactive_trader_cloud.Common.{
  ℕ, zero, suc, ◌-◌, String, Bool, not, ◌&&◌, ◌||◌, List, [], ◌∷◌, ◌++◌, length, ◌==◌, leb,
  if◌then◌else◌, any,
}
use reactive_trader_cloud.Services.Models.Decimals.{Decimal}
use reactive_trader_cloud.Ui.Notional.{
  char_code_dot, is_digit, has_shorthand_input, process_notional, Effect, changed, shown,
}

-- The white space below 256 of a script's text.
abbrev pub is_space : ℕ → Bool
is_space c = (leb 9 c && leb c 13) || c == 32 || c == 160

unfoldable pub trim_start : List ℕ → List ℕ
trim_start [] = []
trim_start (c ∷ cs) = let rest = trim_start cs in if is_space c then rest else c ∷ cs

unfoldable pub trim_end : List ℕ → List ℕ
trim_end [] = []
trim_end (c ∷ cs) =
    let rest = trim_end cs in if is_space c && length rest == 0 then [] else c ∷ rest

-- `trim`
unfoldable pub trim : List ℕ → List ℕ
unfolding trim_start trim_end
trim text = trim_end (trim_start text)

-- K, M, k and m
abbrev pub shortcut_char_codes : List ℕ
shortcut_char_codes = 75 ∷ 77 ∷ 107 ∷ 109 ∷ []

unfoldable pub input_is_allowed : ℕ → Bool
unfolding any
input_is_allowed c = leb c 31 || any (λ s. s == c) shortcut_char_codes || is_digit c

-- The dots of a text, as `match(/\./g)` counts them; it is null if there is none.
unfoldable pub dots : List ℕ → ℕ
dots [] = 0
dots (c ∷ cs) = if c == char_code_dot then suc (dots cs) else dots cs

-- The `key` of an event is Enter, or it has the code of a character.
pub data Key : Type 0 where
  enter : Key
  character : ℕ → Key

-- What becomes of a key: its default is prevented, or the browser goes on with it, also after an error.
pub data Pressed : Type 0 where
  prevented : Pressed
  passed : Pressed
  thrown : String → Pressed

-- What an action does to the text: replace a number of characters from a place on by others.
unfoldable pub splice : ℕ → ℕ → List ℕ → List ℕ → List ℕ
splice (suc start) count typed [] = typed
splice (suc start) count typed (c ∷ cs) = c ∷ splice start count typed cs
splice zero (suc count) typed [] = typed
splice zero (suc count) typed (c ∷ cs) = splice zero count typed cs
splice zero zero typed text = typed ++ text

-- The text of the element after some effects.
unfoldable pub text_after : List ℕ → List Effect → List ℕ
text_after text [] = text
text_after text (changed d ∷ effects) = text_after text effects
text_after text (shown display ∷ effects) = text_after display effects

-- A key with the selection that it is pressed at, its start and its length, or the loss of the focus.
pub data Action : Type 0 where
  press : ℕ → ℕ → Key → Action
  blur : Action

-- The text that the browser makes of one at a character that is not prevented: a backspace takes out
-- the selection or the character before it, another control character nothing, and any other
-- character replaces the selection.
unfoldable pub edited : ℕ → ℕ → ℕ → List ℕ → List ℕ
unfolding splice
edited start count c text =
    if c == 8
    then if count == 0 && not (start == 0)
      then splice (start - 1) 1 [] text
      else splice start count [] text
    else if leb c 31
    then text
    else splice start count (c ∷ []) text

module _ (format : Decimal → Bool → List ℕ) (max_value : ℕ) where
  unfoldable pub handle_exit_notional_input : List ℕ → List Effect
  handle_exit_notional_input text = process_notional format max_value text

  unfoldable pub handle_key_press : List ℕ → Key → Pressed × List Effect
  unfolding dots input_is_allowed
  handle_key_press text enter = (passed, process_notional format max_value text)
  handle_key_press text (character c) =
      if c == char_code_dot
      then if dots text == 0
        then (thrown "Cannot read property 'length' of null", [])
        else (prevented, [])
      else if input_is_allowed c
      then (passed, [])
      else (prevented, [])

  unfoldable pub handle_input_change : List ℕ → List Effect
  unfolding trim
  handle_input_change raw_text =
      let text = trim raw_text in
      if has_shorthand_input text then process_notional format max_value text else []

  -- The text after the browser's edit, and after the handler of the change.
  unfoldable pub edit : ℕ → ℕ → ℕ → List ℕ → List ℕ
  unfolding edited text_after handle_input_change
  edit start count c text =
      let text' = edited start count c text in text_after text' (handle_input_change text')

  -- The text of the element after an action. Enter leaves the text that the handler has put in.
  unfoldable pub act : List ℕ → Action → List ℕ
  unfolding text_after handle_key_press handle_exit_notional_input edit
  act text blur = text_after text (handle_exit_notional_input text)
  act text (press start count enter) = text_after text (handle_key_press text enter).1
  act text (press start count (character c)) = elim (handle_key_press text (character c)).0 [
    | prevented ↦ text
    | passed ↦ edit start count c text
    | thrown message ↦ edit start count c text
  ]

  unfoldable pub act_all : List ℕ → List Action → List ℕ
  unfolding act
  act_all text [] = text
  act_all text (action ∷ actions) = act_all (act text action) actions
