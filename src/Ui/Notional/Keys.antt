-- ===== src/Ui/Notional/Keys.antt =====
-- What the actions of a user make of the text of the notional input.
use reactive_trader_cloud.Common.{
  ◌⊎◌, subst, sym, ℕ, ◌≤◌, ◌<◌, ◌+◌, Bool, true, false, List, [], ◌∷◌, ◌==◌, any, All, ◌≡◌, refl,
  arith, inl, inr, Bool-cases, leb, not, ◌&&◌, ◌-◌,
}
use reactive_trader_cloud.Services.Models.Decimals.{Decimal}
use reactive_trader_cloud.Ui.Notional.{
  char_code_dot, has_shorthand_input, process_notional, convert_notional_shorthand_to_numeric_value,
  limited, ends_in_dot,
}
use reactive_trader_cloud.Ui.Notional.Editing.{
  input_is_allowed, dots, enter, character, handle_key_press, splice, text_after, edited,
  handle_input_change, handle_exit_notional_input, edit, Action, press, blur, act, act_all,
}
use reactive_trader_cloud.Ui.Notional.Values.{IsBelow}
use reactive_trader_cloud.Ui.Notional.Texts.{
  is_typed, IsFormatted, IsTyped, IsFormatted-IsTyped, trim-typed, dots-splice, All-splice,
}

-- A control character, or one that can be typed and is not the second dot.
abbrev MayEdit : ℕ → List ℕ → Type 0
MayEdit c text = (leb c 31 ≡ true) ⊎ ((is_typed c ≡ true) × (dots (c ∷ []) + dots text ≤ 1))

edited-spliced :
    (start count c : ℕ) (text : List ℕ)
    → MayEdit c text
    → dots text ≤ 1
    → (edited start count c text ≡ text)
      ⊎ ((place : ℕ) × (removed : ℕ) × (typed : List ℕ) × (edited start count c text
            ≡ splice place removed typed text)
          × All (λ c. is_typed c ≡ true) typed
          × (dots typed + dots text ≤ 1))
unfolding edited dots
edited-spliced start count c text may one = elim (Bool-cases (c == 8)) [
  | inl e ↦ elim (Bool-cases (count == 0 && not (start == 0))) [
    | inl f ↦ inr (start - 1, 1, [], rw (edited, e, f) refl, tt, omega (arith, one))
    | inr f ↦ inr (start, count, [], rw (edited, e, f) refl, tt, omega (arith, one))
  ]
  | inr e ↦ elim (Bool-cases (leb c 31)) [
    | inl f ↦ inl (rw (edited, e, f) refl)
    | inr f ↦ elim may [
      | inl g ↦ absurd cc
      | inr (t, d) ↦ inr (start, count, c ∷ [], rw (edited, e, f) refl, (t, tt), d)
    ]
  ]
]

-- The characters and the dots of a text.
abbrev IsPlain : List ℕ → Type 0
IsPlain text = All (λ c. is_typed c ≡ true) text × (dots text ≤ 1)

edited-IsPlain :
    (start count c : ℕ) (text : List ℕ)
    → MayEdit c text
    → IsPlain text
    → IsPlain (edited start count c text)
edited-IsPlain start count c text may plain = elim (edited-spliced start count c text may plain.1) [
  | inl e ↦ subst IsPlain (sym e) plain
  | inr (place, removed, typed, e, h, d) ↦ subst IsPlain (sym e) (
    All-splice place removed typed text h plain.0,
    omega (arith, dots-splice place removed typed text, d),
  )
]

-- A dot that is the first, and another character that is let through, may edit the text.
dot-MayEdit :
    (c : ℕ) (text : List ℕ) → (c == char_code_dot) ≡ true → (dots text == 0) ≡ true → MayEdit c text
unfolding dots any
dot-MayEdit c text e f = ground (arith, e, f)

allowed-MayEdit :
    (c : ℕ) (text : List ℕ)
    → (c == char_code_dot) ≡ false
    → input_is_allowed c ≡ true
    → dots text ≤ 1
    → MayEdit c text
unfolding dots any input_is_allowed
allowed-MayEdit c text e f one = ground (arith, e, f, one)

module _ (format : Decimal → Bool → List ℕ) (max_value : ℕ) where
  act-character :
      (start count c : ℕ) (text : List ℕ)
      → dots text ≤ 1
      → (act format max_value text (press start count (character c)) ≡ text)
        ⊎ ((act format max_value text (press start count (character c))
              ≡ edit format max_value start count c text)
            × MayEdit c text)
  unfolding act handle_key_press
  act-character start count c text one = elim (Bool-cases (c == char_code_dot)) [
    | inl e ↦ elim (Bool-cases (dots text == 0)) [
      | inl f ↦ inr (rw (act, handle_key_press, e, f) refl, dot-MayEdit c text e f)
      | inr f ↦ inl (rw (act, handle_key_press, e, f) refl)
    ]
    | inr e ↦ elim (Bool-cases (input_is_allowed c)) [
      | inl f ↦ inr (rw (act, handle_key_press, e, f) refl, allowed-MayEdit c text e f one)
      | inr f ↦ inl (rw (act, handle_key_press, e, f) refl)
    ]
  ]

  module _ (positive : 0 < max_value)
      (formats : (d : Decimal) (dot : Bool)
        → IsBelow max_value d
        → IsFormatted (format d dot)) where
    limited-IsBelow : (d : Decimal) → IsBelow max_value (limited max_value d)
    unfolding limited
    limited-IsBelow d = ground (arith, positive)

    processed-IsFormatted :
        (shown_text text : List ℕ)
        → IsFormatted (text_after shown_text (process_notional format max_value text))
    unfolding process_notional text_after
    processed-IsFormatted shown_text text =
        let d = convert_notional_shorthand_to_numeric_value text in
        formats (limited max_value d) (ends_in_dot text) (limited-IsBelow d)

    processed-IsTyped :
        (shown_text text : List ℕ)
        → IsTyped (text_after shown_text (process_notional format max_value text))
    processed-IsTyped shown_text text =
        IsFormatted-IsTyped _ (processed-IsFormatted shown_text text)

    changed-IsTyped :
        (text : List ℕ)
        → IsPlain text
        → IsTyped (text_after text (handle_input_change format max_value text))
    unfolding handle_input_change text_after
    changed-IsTyped text plain = elim (Bool-cases (has_shorthand_input text)) [
      | inl e ↦ rw (handle_input_change, trim-typed text plain.0, e) (processed-IsTyped text text)
      | inr e ↦
          rw (handle_input_change, trim-typed text plain.0, e, text_after)
            (record { characters = plain.0; one_dot = plain.1; converted = e })
    ]

    act-IsTyped :
        (text : List ℕ) (action : Action)
        → IsTyped text
        → IsTyped (act format max_value text action)
    unfolding act handle_key_press handle_exit_notional_input edit
    act-IsTyped text blur h = processed-IsTyped text text
    act-IsTyped text (press start count enter) h = processed-IsTyped text text
    act-IsTyped text (press start count (character c)) h =
        elim (act-character start count c text h.one_dot) [
          | inl e ↦ subst IsTyped (sym e) h
          | inr (e, may) ↦ subst IsTyped (sym e) (
              changed-IsTyped (edited start count c text)
                (edited-IsPlain start count c text may (h.characters, h.one_dot)))
        ]

    act_all-IsTyped :
        (text : List ℕ) (actions : List Action)
        → IsTyped text
        → IsTyped (act_all format max_value text actions)
    unfolding act_all
    act_all-IsTyped text [] h = h
    act_all-IsTyped text (action ∷ actions) h =
        act_all-IsTyped (act format max_value text action) actions (act-IsTyped text action h)

    leave-IsFormatted :
        (text : List ℕ) (start count : ℕ)
        → IsFormatted (act format max_value text (press start count enter))
          × IsFormatted (act format max_value text blur)
    unfolding act handle_key_press handle_exit_notional_input
    leave-IsFormatted text start count =
        (processed-IsFormatted text text, processed-IsFormatted text text)

  -- Whatever keys a user presses at whatever selections and whenever the input loses the focus, a notional
  -- that has only digits, commas, K, M and at most one dot, and that is no shorthand, stays so: a
  -- shorthand is put back as a formatted number at once, and the one dot that is let through is the
  -- first, though it is an error of the handler. Enter and the loss of the focus then leave a formatted
  -- number, without K or M. The maximum is positive, and below it the format has only digits, commas
  -- and at most one dot.
  pub act_all-IsNotional :
      (text : List ℕ) (actions : List Action) (start count : ℕ)
      → 0 < max_value
      → ((d : Decimal) (dot : Bool) → IsBelow max_value d → IsFormatted (format d dot))
      → IsTyped text
      → let text' = act_all format max_value text actions in
        IsTyped text'
        × IsFormatted (act format max_value text' (press start count enter))
        × IsFormatted (act format max_value text' blur)
  act_all-IsNotional text actions start count positive formats h =
      let text' = act_all format max_value text actions in
      (
        act_all-IsTyped positive formats text actions h,
        (leave-IsFormatted positive formats text' start count).0,
        (leave-IsFormatted positive formats text' start count).1,
      )
