-- ===== src/System/Guard/Tests.antt =====
-- The checks at concrete values.
use reactive_trader_cloud.Common.{◌≡◌, refl}
use reactive_trader_cloud.Common.Result.{returns, throws}
use reactive_trader_cloud.System.Guard.{
  undefined, null, text, is_defined, is_object, length_greater_than, string_value_is_not_empty,
}

null_is_defined : is_defined null "required" ≡ returns tt
unfolding is_defined
null_is_defined = refl

no_message : is_defined undefined "" ≡ throws "Argument error"
unfolding is_defined
no_message = refl

-- The check of a length greater than three lets three pass.
not_greater : length_greater_than 3 3 "too short" ≡ returns tt
unfolding length_greater_than
not_greater = refl

null_is_object : is_object null "required" ≡ returns tt
unfolding is_object
null_is_object = refl

empty_refused : string_value_is_not_empty (text "") "empty" ≡ throws "empty"
unfolding string_value_is_not_empty
empty_refused = refl
