-- ===== src/Services/Mappers/Accepted.antt =====
-- The values of the enumerations of services/model, and the texts that the mappers of services/mappers
-- accept for them.
use Prim.Native.String.{String}
use mathlib.Core.Equiv.{IsEquiv, iso_to_equiv}
use mathlib.Core.HLevel.{Σ_prop_path}
use reactive_trader_cloud.Common.{◌≡◌, refl, sym, ap, ◌∙◌, Bool, true, false, arith}
use reactive_trader_cloud.Common.Result.{Result, returns, throws}
use reactive_trader_cloud.Services.Mappers.{
  update_type_name, direction_name, trade_status_name, map_update_type, map_direction_from_dto,
  map_trade_status_from_dto,
}
use reactive_trader_cloud.Services.Mappers.Names.{
  map_update_type-name, map_direction-name, map_trade_status-name, name-map_update_type,
  name-map_direction, name-map_trade_status,
}

not_accepted : (B : Type 0) → false ≡ true → B
not_accepted B h = absurd (ground arith)

module _ {A : Type 0} where
  abbrev pub accepts : Result A → Bool
  accepts (returns a) = true
  accepts (throws e) = false

  abbrev value : (r : Result A) → accepts r ≡ true → A
  value (returns a) h = a
  value (throws e) h = not_accepted A h

  value-accepts : (r : Result A) (h : accepts r ≡ true) → r ≡ returns (value r h)
  value-accepts (returns a) h = refl
  value-accepts (throws e) h = absurd (ground arith)

  abbrev value_or : A → Result A → A
  value_or a (returns x) = x
  value_or a (throws e) = a

-- The texts for which a mapping does not throw.
abbrev pub Accepted : {A : Type 0} → (String → Result A) → Type 0
Accepted read = (s : String) × (accepts (read s) ≡ true)

module _ {A : Type 0} (read : String → Result A) (name : A → String)
    (read-name : (a : A) → read (name a) ≡ returns a)
    (name-read : (s : String) (a : A) → read s ≡ returns a → s ≡ name a) where
  abbrev pub named : A → Accepted read
  named a = (name a, ap accepts (read-name a))

  text_of : (t : Accepted read) → named (value (read t.0) t.1) ≡ t
  text_of (s, h) =
      Σ_prop_path (λ x. hlevel) (sym (name-read s (value (read s) h) (value-accepts (read s) h)))

  value_of : (a : A) → value (read (name a)) (ap accepts (read-name a)) ≡ a
  value_of a =
      let e = value-accepts (read (name a)) (ap accepts (read-name a)) in
      ap (value_or a) (sym e ∙ read-name a)

  pub named-IsEquiv : IsEquiv named
  named-IsEquiv =
      (iso_to_equiv (record {
        fun = named;
        inv = λ t. value (read t.0) t.1;
        rinv = text_of;
        linv = value_of;
      })).1

-- The values of the three enumerations, each sent to its name, are equivalent to the texts that the
-- mapper of the enumeration accepts: it accepts every name, and no text but one value's name.
pub names-IsEquiv :
    IsEquiv (named map_update_type update_type_name map_update_type-name name-map_update_type)
    × IsEquiv (named map_direction_from_dto direction_name map_direction-name name-map_direction)
    × IsEquiv (
        named map_trade_status_from_dto trade_status_name map_trade_status-name
          name-map_trade_status)
names-IsEquiv = (
  named-IsEquiv map_update_type update_type_name map_update_type-name name-map_update_type,
  named-IsEquiv map_direction_from_dto direction_name map_direction-name name-map_direction,
  named-IsEquiv map_trade_status_from_dto trade_status_name map_trade_status-name
      name-map_trade_status,
)
