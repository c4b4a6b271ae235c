-- ===== src/Ui/Arrays.antt =====
-- `_.findIndex` and the assignments at the index that it finds.
use mathlib.Core.Option.{map as option_map}
use reactive_trader_cloud.Common.{
  ℕ, zero, suc, ◌≡◌, refl, ap, Bool, true, Option, none, some, List, [], ◌∷◌, map, find, any,
  if◌then◌else◌, Bool-cases, inl, inr, ◌⊎◌,
}

module _ {A : Type 0} where
  -- `none` is -1.
  unfoldable pub find_index : (A → Bool) → List A → Option ℕ
  find_index p [] = none
  find_index p (x ∷ xs) = if p x then some 0 else option_map suc (find_index p xs)

  unfoldable pub modify_at : ℕ → (A → A) → List A → List A
  modify_at i f [] = []
  modify_at zero f (x ∷ xs) = f x ∷ xs
  modify_at (suc i) f (x ∷ xs) = x ∷ modify_at i f xs

  -- The first element with the property changed.
  unfoldable pub modify_first : (A → Bool) → (A → A) → List A → List A
  modify_first p f [] = []
  modify_first p f (x ∷ xs) = if p x then f x ∷ xs else x ∷ modify_first p f xs

  -- Either there is an index, and the assignment there changes the first element with the property,
  -- or no element has it.
  pub find_index-cases :
      (p : A → Bool) (f : A → A) (xs : List A)
      → ((i : ℕ) × (find_index p xs ≡ some i)
          × (modify_at i f xs ≡ modify_first p f xs)
          × (any p xs ≡ true))
        ⊎ ((find_index p xs ≡ none) × (find p xs ≡ none))
  unfolding find_index modify_at modify_first find any
  find_index-cases p f [] = inr (refl, refl)
  find_index-cases p f (x ∷ xs) = elim (Bool-cases (p x)) [
    | inl e ↦ inl (0, rw e refl, rw e refl, rw e refl)
    | inr e ↦ elim (find_index-cases p f xs) [
      | inl (i, k, m, a) ↦ inl (suc i, rw (e, k) refl, rw e (ap (x ∷◌) m), rw e a)
      | inr (k, n) ↦ inr (rw (e, k) refl, rw e n)
    ]
  ]

  -- What the change keeps of every element with the property, it keeps of the array.
  pub map-modify_first :
      {B : Type 0} (g : A → B) (p : A → Bool) (f : A → A) (xs : List A)
      → ((x : A) → p x ≡ true → g (f x) ≡ g x)
      → map g (modify_first p f xs) ≡ map g xs
  unfolding modify_first
  map-modify_first g p f [] h = refl
  map-modify_first g p f (x ∷ xs) h = elim (Bool-cases (p x)) [
    | inl e ↦ rw (e, h x e) refl
    | inr e ↦ rw (e, map-modify_first g p f xs h) refl
  ]
