-- ===== src/Common/Result.antt =====
-- A call that may throw: the value that it returns, or the message of the error.
use Prim.Native.String.{String}
use mathlib.Core.List.{List, [], ◌∷◌}
use mathlib.Core.Path.{◌≡◌, refl}
use mathlib.Core.Logic.{◌⊎◌, inl, inr}

pub data Result {ℓ} (A : Type ℓ) : Type ℓ where
  throws : String → Result A
  returns : A → Result A

infixl 5 ◌>>=◌
abbrev pub ◌>>=◌ {ℓ κ} : {A : Type ℓ} {B : Type κ} → Result A → (A → Result B) → Result B
throws message >>= next = throws message
returns x >>= next = next x

module _ {ℓ κ} {A : Type ℓ} {B : Type κ} where
  -- A mapping over an array, stopped by the first error that is thrown.
  unfoldable pub traverse : (A → Result B) → List A → Result (List B)
  traverse f [] = returns []
  traverse f (x ∷ xs) = do y ← f x; ys ← traverse f xs; returns (y ∷ ys)

pub Result-cases {ℓ} :
    {A : Type ℓ} (r : Result A) → ((a : A) × (r ≡ returns a)) ⊎ ((e : String) × (r ≡ throws e))
Result-cases (returns a) = inl (a, refl)
Result-cases (throws e) = inr (e, refl)
