-- ===== src/Common/Dict/Values.antt =====
-- Tests on the values of a dictionary, read key by key.
use mathlib.Core.Path.{◌≡◌, refl}
use Prim.Native.String.{String}
use mathlib.Core.Logic.{inl, inr}
use mathlib.Core.Bool.{Bool, true}
use mathlib.Core.Option.{some}
use mathlib.Core.List.{[], ◌∷◌}
use native.Mathlib.Omega.{arith}
use text.Mathlib.Text.{◌==◌}
use text.Mathlib.TextEquality.{eq_iff}
use text.Mathlib.TextPositions.{eq_refl}
use reactive_trader_cloud.Common.Tests.{Bool-cases}
use reactive_trader_cloud.Common.Lists.{any, every}
use reactive_trader_cloud.Common.Dict.{Dict, lookup, values, Distinct}

module _ {V : Type 0} (p : V → Bool) where
  pub every-lookup :
      (d : Dict V)
      → every p (values d) ≡ true
      → (k : String) (v : V) → lookup k d ≡ some v
      → p v ≡ true
  unfolding every values lookup
  every-lookup [] h k v e = absurd (ground arith)
  every-lookup ((j, w) ∷ d) h k v e = elim (Bool-cases (j == k)) [
    | inl b ↦ ground arith
    | inr b ↦ every-lookup d (ground arith) k v (ground arith)
  ]

  pub lookup-every :
      (d : Dict V)
      → Distinct d
      → ((k : String) (v : V) → lookup k d ≡ some v → p v ≡ true)
      → every p (values d) ≡ true
  unfolding every values lookup
  lookup-every [] d h = refl
  lookup-every ((j, w) ∷ d) (free, distinct) h =
      let head : p w ≡ true = h j w (rw (eq_refl j) refl) in
      let tail : every p (values d) ≡ true =
        lookup-every d distinct (λ k v e. h k v (ground (arith, eq_iff j k))) in
      rw (head, tail) refl

  pub lookup-any :
      (d : Dict V) (k : String) (v : V) → lookup k d ≡ some v → p v ≡ true → any p (values d) ≡ true
  unfolding any values lookup
  lookup-any [] k v e h = absurd (ground arith)
  lookup-any ((j, w) ∷ d) k v e h = elim (Bool-cases (j == k)) [
    | inl b ↦ ground arith
    | inr b ↦ ground (arith, lookup-any d k v)
  ]

  pub any-lookup :
      (d : Dict V)
      → Distinct d
      → any p (values d) ≡ true
      → (k : String) × (v : V) × (lookup k d ≡ some v) × (p v ≡ true)
  unfolding any values lookup
  any-lookup [] d h = absurd (ground arith)
  any-lookup ((j, w) ∷ d) (free, distinct) h = elim (Bool-cases (p w)) [
    | inl b ↦ (j, w, rw (eq_refl j) refl, b)
    | inr b ↦
        let (k, v, e, hv) = any-lookup d distinct (ground arith) in
        (k, v, ground (arith, eq_iff j k), hv)
  ]
