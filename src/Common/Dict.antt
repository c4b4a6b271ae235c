-- ===== src/Common/Dict.antt =====
-- A script object that serves as a dictionary with text keys: an association list in the order in
-- which the keys were first assigned.
pub mod Values
use Prim.Native.String.{String}
use mathlib.Core.Path.{◌≡◌, refl}
use mathlib.Core.Bool.{Bool, true, false}
use mathlib.Core.Option.{Option, none, some}
use mathlib.Core.List.{List, [], ◌∷◌}
use native.Mathlib.Omega.{arith}
use text.Mathlib.Text.{◌==◌}
use text.Mathlib.TextEquality.{eq_iff}
use text.Mathlib.TextPositions.{eq_refl}
use reactive_trader_cloud.Common.Tests.{if◌then◌else◌}

abbrev pub Dict {ℓ} : Type ℓ → Type ℓ
Dict V = List (String × V)

module _ {ℓ} {V : Type ℓ} where
  -- `o[k]`; a missing key is `undefined`.
  unfoldable pub lookup : String → Dict V → Option V
  lookup k [] = none
  lookup k ((j, v) ∷ m) = if j == k then some v else lookup k m

  -- `o.hasOwnProperty(k)`
  unfoldable pub has_key : String → Dict V → Bool
  has_key k [] = false
  has_key k ((j, v) ∷ m) = if j == k then true else has_key k m

  -- `o[k] = v`
  unfoldable pub insert : String → V → Dict V → Dict V
  insert k v [] = (k, v) ∷ []
  insert k v ((j, w) ∷ m) = if j == k then (j, v) ∷ m else (j, w) ∷ insert k v m

  -- `delete o[k]`
  unfoldable pub remove : String → Dict V → Dict V
  remove k [] = []
  remove k ((j, w) ∷ m) = if j == k then remove k m else (j, w) ∷ remove k m

  -- `Object.keys(o).map(k => o[k])`
  unfoldable pub values : Dict V → List V
  values [] = []
  values ((j, v) ∷ m) = v ∷ values m

  pub lookup-insert :
      (j k : String) (v : V) (m : Dict V)
      → lookup j (insert k v m) ≡ (if k == j then some v else lookup j m)
  unfolding lookup insert
  lookup-insert j k v [] = refl
  lookup-insert j k v ((i, w) ∷ m) =
      ground (arith, eq_iff k j, eq_iff i k, eq_iff i j, lookup-insert j k v m)

  pub lookup-remove :
      (j k : String) (m : Dict V) → lookup j (remove k m) ≡ (if k == j then none else lookup j m)
  unfolding lookup remove
  lookup-remove j k [] = ground arith
  lookup-remove j k ((i, w) ∷ m) =
      ground (arith, eq_iff k j, eq_iff i k, eq_iff i j, lookup-remove j k m)

  pub has_key-lookup :
      (k : String) (m : Dict V) → has_key k m ≡ elim (lookup k m) [ none ↦ false | some _ ↦ true ]
  unfolding lookup has_key
  has_key-lookup k [] = refl
  has_key-lookup k ((i, w) ∷ m) = ground (arith, has_key-lookup k m)

  -- No key is stored twice.
  abbrev pub Distinct : Dict V → Type ℓ
  Distinct [] = Unit
  Distinct ((k, v) ∷ m) = (lookup k m ≡ none) × Distinct m

  pub insert-Distinct : (k : String) (v : V) (m : Dict V) → Distinct m → Distinct (insert k v m)
  unfolding insert lookup
  insert-Distinct k v [] d = (refl, tt)
  insert-Distinct k v ((i, w) ∷ m) d =
      ground (arith, lookup-insert i k v m, insert-Distinct k v m d.1, eq_iff i k, eq_iff k i)

  pub remove-Distinct : (k : String) (m : Dict V) → Distinct m → Distinct (remove k m)
  unfolding remove
  remove-Distinct k [] d = tt
  remove-Distinct k ((i, w) ∷ m) d = ground (arith, lookup-remove i k m, remove-Distinct k m d.1)

pub ruleset dict_laws = (lookup-insert, lookup-remove, has_key-lookup, eq_refl)
