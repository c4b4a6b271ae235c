-- ===== src/Ui/Notional/Texts.antt =====
-- The texts that the notional input can hold, and what is done to them.
use reactive_trader_cloud.Common.{
  ℕ, zero, suc, ◌≤◌, ◌+◌, Bool, true, false, ◌||◌, List, [], ◌∷◌, ◌++◌, ◌==◌, any, All, ◌≡◌, refl,
  arith, filter, All-append,
}
use reactive_trader_cloud.Ui.Notional.{
  is_digit, char_code_dot, to_upper, normalise, split_numerals, match_rest, match_shorthand,
  has_shorthand_input,
}
use reactive_trader_cloud.Ui.Notional.Editing.{
  is_space, trim, trim_start, trim_end, shortcut_char_codes, dots, splice,
}

-- A digit, a dot or a comma.
abbrev pub is_shown : ℕ → Bool
is_shown c = is_digit c || c == char_code_dot || c == 44

-- One of these, or K, M, k, m.
abbrev pub is_typed : ℕ → Bool
unfolding any
is_typed c = is_shown c || any (λ s. s == c) shortcut_char_codes

-- What a number's format is made of.
pub record IsFormatted (text : List ℕ) : Type 0 where
  pub characters : All (λ c. is_shown c ≡ true) text
  pub one_dot : dots text ≤ 1

-- A text with at most one dot that is no shorthand.
pub record IsTyped (text : List ℕ) : Type 0 where
  pub characters : All (λ c. is_typed c ≡ true) text
  pub one_dot : dots text ≤ 1
  pub converted : has_shorthand_input text ≡ false

split_numerals-shown :
    (text : List ℕ)
    → All (λ c. is_shown c ≡ true) text
    → split_numerals (normalise text) ≡ (normalise text, [])
unfolding split_numerals normalise to_upper filter
split_numerals-shown [] a = refl
split_numerals-shown (c ∷ cs) a = ground (arith, a.0, split_numerals-shown cs a.1)

has_shorthand_input-shown :
    (text : List ℕ) → All (λ c. is_shown c ≡ true) text → has_shorthand_input text ≡ false
unfolding has_shorthand_input match_shorthand match_rest
has_shorthand_input-shown text a = rw (has_shorthand_input, split_numerals-shown text a) refl

typed-shown :
    (text : List ℕ) → All (λ c. is_shown c ≡ true) text → All (λ c. is_typed c ≡ true) text
unfolding is_typed any
typed-shown [] a = tt
typed-shown (c ∷ cs) a = (ground (arith, a.0), typed-shown cs a.1)

pub IsFormatted-IsTyped : (text : List ℕ) → IsFormatted text → IsTyped text
IsFormatted-IsTyped text f = record {
  characters = typed-shown text f.characters;
  one_dot = f.one_dot;
  converted = has_shorthand_input-shown text f.characters;
}

not_space : (c : ℕ) → is_typed c ≡ true → is_space c ≡ false
unfolding is_typed any
not_space c h = ground (arith, h)

trim_start-typed : (text : List ℕ) → All (λ c. is_typed c ≡ true) text → trim_start text ≡ text
unfolding trim_start
trim_start-typed [] a = refl
trim_start-typed (c ∷ cs) a = rw (not_space c a.0) refl

trim_end-typed : (text : List ℕ) → All (λ c. is_typed c ≡ true) text → trim_end text ≡ text
unfolding trim_end
trim_end-typed [] a = refl
trim_end-typed (c ∷ cs) a = rw (not_space c a.0, trim_end-typed cs a.1) refl

pub trim-typed : (text : List ℕ) → All (λ c. is_typed c ≡ true) text → trim text ≡ text
unfolding trim
trim-typed text a = rw (trim_start-typed text a) (trim_end-typed text a)

dots-append : (xs ys : List ℕ) → dots (xs ++ ys) ≡ dots xs + dots ys
unfolding dots
dots-append [] ys = omega arith
dots-append (x ∷ xs) ys = ground (arith, dots-append xs ys)

pub dots-splice :
    (start count : ℕ) (typed text : List ℕ)
    → dots (splice start count typed text) ≤ dots typed + dots text
unfolding dots splice
dots-splice (suc start) count typed [] = omega arith
dots-splice (suc start) count typed (c ∷ cs) = ground (arith, dots-splice start count typed cs)
dots-splice zero (suc count) typed [] = omega arith
dots-splice zero (suc count) typed (c ∷ cs) = ground (arith, dots-splice zero count typed cs)
dots-splice zero zero typed text = omega (arith, dots-append typed text)

pub All-splice :
    (start count : ℕ) (typed text : List ℕ)
    → All (λ c. is_typed c ≡ true) typed
    → All (λ c. is_typed c ≡ true) text
    → All (λ c. is_typed c ≡ true) (splice start count typed text)
unfolding splice
All-splice (suc start) count typed [] h a = h
All-splice (suc start) count typed (c ∷ cs) h a = (a.0, All-splice start count typed cs h a.1)
All-splice zero (suc count) typed [] h a = h
All-splice zero (suc count) typed (c ∷ cs) h a = All-splice zero count typed cs h a.1
All-splice zero zero typed text h a = All-append (λ c. is_typed c ≡ true) typed text h a
