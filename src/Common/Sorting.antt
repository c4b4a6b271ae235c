-- ===== src/Common/Sorting.antt =====
-- A stable insertion sort by a numeric key that may be NaN, which goes to the end: a function with
-- the properties that the client relies on in lodash's `sortBy`.
use mathlib.Core.List.{Perm}
use mathlib.Core.List.Perm
use Prim.Native.Nat.{ℕ}
use mathlib.Core.Path.{◌≡◌}
use mathlib.Core.Bool.{Bool, true, false}
use mathlib.Core.Option.{Option, none, some}
use mathlib.Core.List.{List, [], ◌∷◌}
use native.Mathlib.Omega.{arith}
use reactive_trader_cloud.Common.Tests.{leb, if◌then◌else◌, Bool-cases}
use reactive_trader_cloud.Common.Lists.{All}
use mathlib.Core.Logic.{inl, inr}

abbrev pub le_key : Option ℕ → Option ℕ → Bool
le_key none none = true
le_key none (some b) = false
le_key (some a) none = true
le_key (some a) (some b) = leb a b

le_key_trans : (a b c : Option ℕ) → le_key a b ≡ true → le_key b c ≡ true → le_key a c ≡ true
le_key_trans a b c h k = ground arith

le_key_total : (a b : Option ℕ) → le_key a b ≡ false → le_key b a ≡ true
le_key_total a b h = ground arith

module _ {A : Type 0} (key : A → Option ℕ) where
  abbrev pub IsSorted : List A → Type 0
  IsSorted [] = Unit
  IsSorted (x ∷ xs) = All (λ y. le_key (key x) (key y) ≡ true) xs × IsSorted xs

  unfoldable pub insert_sorted : A → List A → List A
  insert_sorted x [] = x ∷ []
  insert_sorted x (y ∷ ys) = if le_key (key x) (key y) then x ∷ y ∷ ys else y ∷ insert_sorted x ys

  unfoldable pub sort : List A → List A
  unfolding insert_sorted
  sort [] = []
  sort (x ∷ xs) = insert_sorted x (sort xs)

  insert_sorted-perm : (x : A) (ys : List A) → Perm (insert_sorted x ys) (x ∷ ys)
  unfolding insert_sorted
  insert_sorted-perm x [] = Perm.refl (x ∷ [])
  insert_sorted-perm x (y ∷ ys) = elim (Bool-cases (le_key (key x) (key y))) [
    | inl h ↦ rw h (Perm.refl (x ∷ y ∷ ys))
    | inr h ↦ rw h (Perm.trans (Perm.cons y (insert_sorted-perm x ys)) (Perm.swap x y ys))
  ]

  pub sort-perm : (xs : List A) → Perm (sort xs) xs
  unfolding sort
  sort-perm [] = Perm.refl []
  sort-perm (x ∷ xs) = Perm.trans (insert_sorted-perm x (sort xs)) (Perm.cons x (sort-perm xs))

  All-insert_sorted :
      (P : A → Type 0) (x : A) (ys : List A) → P x → All P ys → All P (insert_sorted x ys)
  unfolding insert_sorted
  All-insert_sorted P x [] p h = (p, tt)
  All-insert_sorted P x (y ∷ ys) p h = elim (Bool-cases (le_key (key x) (key y))) [
    | inl e ↦ rw e (p, h)
    | inr e ↦ rw e (h.0, All-insert_sorted P x ys p h.1)
  ]

  All-above :
      (a b : Option ℕ) (ys : List A)
      → le_key a b ≡ true
      → All (λ y. le_key b (key y) ≡ true) ys
      → All (λ y. le_key a (key y) ≡ true) ys
  All-above a b [] h k = tt
  All-above a b (y ∷ ys) h k = (le_key_trans a b (key y) h k.0, All-above a b ys h k.1)

  insert_sorted-IsSorted : (x : A) (ys : List A) → IsSorted ys → IsSorted (insert_sorted x ys)
  unfolding insert_sorted
  insert_sorted-IsSorted x [] s = (tt, tt)
  insert_sorted-IsSorted x (y ∷ ys) s = elim (Bool-cases (le_key (key x) (key y))) [
    | inl e ↦ rw e ((e, All-above (key x) (key y) ys e s.0), s)
    | inr e ↦ rw e (
      All-insert_sorted (λ z. le_key (key y) (key z) ≡ true) x ys (le_key_total (key x) (key y) e)
          s.0,
      insert_sorted-IsSorted x ys s.1,
    )
  ]

  pub sort-IsSorted : (xs : List A) → IsSorted (sort xs)
  unfolding sort
  sort-IsSorted [] = tt
  sort-IsSorted (x ∷ xs) = insert_sorted-IsSorted x (sort xs) (sort-IsSorted xs)
