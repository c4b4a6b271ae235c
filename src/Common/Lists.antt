-- ===== src/Common/Lists.antt =====
-- Lists measured and searched by native numbers, and predicates on lists by recursion.
use Prim.Native.Nat.{ℕ, suc, ◌+◌}
use mathlib.Core.Path.{◌≡◌, refl}
use mathlib.Core.Bool.{Bool, true, false, ◌&&◌, ◌||◌}
use mathlib.Core.Option.{Option, none, some}
use mathlib.Core.List.{List, [], ◌∷◌, ◌++◌, Mem, mem-cons, not-mem-nil}
use mathlib.Core.Logic.Or
use mathlib.Core.Path.{sym, subst}
use native.Mathlib.Omega.{arith}
use reactive_trader_cloud.Common.Tests.{if◌then◌else◌}

module _ {ℓ} {A : Type ℓ} where
  abbrev pub length : List A → ℕ
  length [] = 0
  length (x ∷ xs) = suc (length xs)

  pub length-append : (xs ys : List A) → length (xs ++ ys) ≡ length xs + length ys
  length-append [] ys = omega arith
  length-append (x ∷ xs) ys = omega (arith, length-append xs ys)

  abbrev pub All {κ} : (A → Type κ) → List A → Type κ
  All P [] = Unit
  All P (x ∷ xs) = P x × All P xs

  pub All-append {κ} : (P : A → Type κ) (xs ys : List A) → All P xs → All P ys → All P (xs ++ ys)
  All-append P [] ys hx hy = hy
  All-append P (x ∷ xs) ys hx hy = (hx.0, All-append P xs ys hx.1 hy)

  -- The array methods `filter`, `find`, `some` and `every`, and the ones of lodash by these names.
  unfoldable pub filter : (A → Bool) → List A → List A
  filter p [] = []
  filter p (x ∷ xs) = if p x then x ∷ filter p xs else filter p xs

  unfoldable pub find : (A → Bool) → List A → Option A
  find p [] = none
  find p (x ∷ xs) = if p x then some x else find p xs

  unfoldable pub any : (A → Bool) → List A → Bool
  any p [] = false
  any p (x ∷ xs) = p x || any p xs

  unfoldable pub every : (A → Bool) → List A → Bool
  every p [] = true
  every p (x ∷ xs) = p x && every p xs

  -- `forEach` over a state that each round replaces.
  unfoldable pub fold {κ} : {S : Type κ} → (S → A → S) → S → List A → S
  fold step s [] = s
  fold step s (x ∷ xs) = fold step (step s x) xs

  pub fold-append {κ} :
      {S : Type κ} (step : S → A → S) (s : S) (xs ys : List A)
      → fold step s (xs ++ ys) ≡ fold step (fold step s xs) ys
  unfolding fold
  fold-append step s [] ys = refl
  fold-append step s (x ∷ xs) ys = fold-append step (step s x) xs ys

  -- What every round keeps holds at the end.
  pub fold_inv {κ μ} :
      {S : Type κ} (P : S → Type μ) (step : S → A → S)
      → ((s : S) (x : A) → P s → P (step s x))
      → (xs : List A) (s : S) → P s
      → P (fold step s xs)
  unfolding fold
  fold_inv P step keep [] s h = h
  fold_inv P step keep (x ∷ xs) s h = fold_inv P step keep xs (step s x) (keep s x h)

  pub All-split {κ} : (P : A → Type κ) (xs ys : List A) → All P (xs ++ ys) → All P xs × All P ys
  All-split P [] ys h = (tt, h)
  All-split P (x ∷ xs) ys h = let (hx, hy) = All-split P xs ys h.1 in ((h.0, hx), hy)

module _ {A : Type 0} where
  pub All-mem :
      {P : A → Type 0}
      → ((x : A) → IsProp (P x))
      → (xs : List A) → All P xs
      → (x : A) → Mem x xs
      → P x
  All-mem {P} prop [] h x m = absurd (not-mem-nil m)
  All-mem {P} prop (y ∷ ys) h x m =
      Or.elim (prop x) (mem-cons.0 m) (λ e. subst P (sym e) h.0) (All-mem prop ys h.1 x)
