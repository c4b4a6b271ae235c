-- ===== src/System/Guard.antt =====
-- src/client/src/system/guard.js: the checks of arguments. A value is what the checks can tell of it.
mod Tests
use reactive_trader_cloud.Common.{
  ℕ, String, Bool, true, false, not, ◌||◌, List, [], ◌∷◌, if◌then◌else◌, ◌===◌, ◌==◌, ltb,
}
use reactive_trader_cloud.Common.Result.{Result, returns, throws}

pub data Value : Type 0 where
  undefined null nan function object : Value
  boolean : Bool → Value
  number : ℕ → Value
  text : String → Value
  string_object : String → Value  -- made by `new String`
  array : ℕ → Value  -- with its length

-- A call without a message, or with an empty one, throws the message that stands in for it.
unfoldable pub do_throw : String → Result (Unit {0})
do_throw message = throws (if message === "" then "Argument error" else message)

abbrev pub is_string_value : Value → Bool
is_string_value (text s) = true
is_string_value (string_object s) = true
is_string_value _ = false

-- What `if (value)` takes for true.
abbrev pub is_truthy : Value → Bool
is_truthy undefined = false
is_truthy null = false
is_truthy nan = false
is_truthy function = true
is_truthy object = true
is_truthy (boolean b) = b
is_truthy (number n) = not (n == 0)
is_truthy (text s) = not (s === "")
is_truthy (string_object s) = true
is_truthy (array n) = true

abbrev pub check : Bool → String → Result (Unit {0})
check ok message = if ok then returns tt else do_throw message

abbrev pub is_undefined : Value → Bool
is_undefined undefined = true
is_undefined _ = false

unfoldable pub is_defined : Value → String → Result (Unit {0})
unfolding do_throw
is_defined value message = check (not (is_undefined value)) message

unfoldable pub is_false : Value → String → Result (Unit {0})
unfolding do_throw
is_false value message = check (not (is_truthy value)) message

unfoldable pub is_true : Value → String → Result (Unit {0})
unfolding do_throw
is_true value message = check (is_truthy value) message

unfoldable pub length_is : ℕ → ℕ → String → Result (Unit {0})
unfolding do_throw
length_is size length message = check (size == length) message

-- The two checks of a least length have the same test.
unfoldable pub length_greater_than : ℕ → ℕ → String → Result (Unit {0})
unfolding do_throw
length_greater_than size expected message = check (not (ltb size expected)) message

unfoldable pub length_is_at_least : ℕ → ℕ → String → Result (Unit {0})
unfolding do_throw
length_is_at_least size expected message = check (not (ltb size expected)) message

unfoldable pub is_string : Value → String → Result (Unit {0})
unfolding do_throw
is_string value message = check (is_string_value value) message

-- A `String` object is never equal to the empty text, so that it passes whatever it holds.
abbrev pub is_empty_text : Value → Bool
is_empty_text (text s) = s === ""
is_empty_text _ = false

unfoldable pub string_value_is_not_empty : Value → String → Result (Unit {0})
unfolding do_throw
string_value_is_not_empty value message =
    check (not (not (is_string_value value) || is_empty_text value)) message

abbrev pub is_function_value : Value → Bool
is_function_value function = true
is_function_value _ = false

unfoldable pub is_function : Value → String → Result (Unit {0})
unfolding do_throw
is_function value message = check (is_function_value value) message

-- `typeof value === 'object'`
abbrev pub is_object_value : Value → Bool
is_object_value null = true
is_object_value object = true
is_object_value (string_object s) = true
is_object_value (array n) = true
is_object_value _ = false

unfoldable pub is_object : Value → String → Result (Unit {0})
unfolding do_throw
is_object value message = check (is_object_value value) message
