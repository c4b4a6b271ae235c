-- ===== src/Services/Mappers/Rates/Parts.antt =====
-- The parts of a rate make up its fixed digits again.
use native.Mathlib.Nat.{div-div-eq-div-mul, pow-suc, mul_comm}
use native.Mathlib.Numerals.{add-one, add-two}
use mathlib.Core.List.{append_assoc}
use reactive_trader_cloud.Common.{
  ℕ, zero, suc, ◌+◌, ◌-◌, ◌*◌, ◌/◌, ◌%◌, ◌^◌, ◌<◌, ◌≤◌, ◌≡◌, refl, sym, ap, ◌∙◌, min, max, List, [],
  ◌∷◌, ◌++◌, length, length-append, arith,
}
use reactive_trader_cloud.Common.Result.{returns}
use reactive_trader_cloud.Services.Models.Decimals.{Decimal, to_fixed_units}
use reactive_trader_cloud.Services.Models.{Rate}
use reactive_trader_cloud.Services.Mappers.Rates.{
  fixed_digits, take, drop, substring, number_from, new_rate, has_exponent, too_many_digits,
}

length-fixed_digits : (p n : ℕ) → length (fixed_digits p n) ≡ p
unfolding fixed_digits
length-fixed_digits zero n = refl
length-fixed_digits (suc p) n =
    omega (
      arith,
      length-append (fixed_digits p (n / 10)) ((n % 10) ∷ []),
      length-fixed_digits p (n / 10),
    )

fixed_digits-three :
    (k n : ℕ)
    → fixed_digits (suc (suc (suc k))) n
      ≡ fixed_digits k (n / 10 / 10 / 10) ++ (n / 10 / 10 % 10) ∷ (n / 10 % 10) ∷ (n % 10) ∷ []
unfolding fixed_digits
fixed_digits-three k n = simp append_assoc

number_from-append :
    (acc : ℕ) (xs ys : List ℕ) → number_from acc (xs ++ ys) ≡ number_from (number_from acc xs) ys
unfolding number_from
number_from-append acc [] ys = refl
number_from-append acc (x ∷ xs) ys = number_from-append (acc * 10 + x) xs ys

div-pow-suc : (m k : ℕ) → m / 10 ^ suc k ≡ m / 10 / 10 ^ k
div-pow-suc m k = rw (pow-suc 10 k, mul_comm (10 ^ k) 10) (sym (div-div-eq-div-mul m 10 (10 ^ k)))

-- Reading a number's digits behind what stands before them gives the number back.
number_from-fixed_digits : (k m : ℕ) → number_from (m / 10 ^ k) (fixed_digits k m) ≡ m
unfolding number_from fixed_digits
number_from-fixed_digits zero m = omega arith
number_from-fixed_digits (suc k) m =
    rw
      (
        div-pow-suc m k,
        number_from-append (m / 10 / 10 ^ k) (fixed_digits k (m / 10)) ((m % 10) ∷ []),
        number_from-fixed_digits k (m / 10),
      )
      (omega arith)

take-append : (xs ys : List ℕ) (k : ℕ) → length xs ≡ k → take k (xs ++ ys) ≡ xs
take-append [] ys zero h = refl
take-append [] ys (suc k) h = absurd (omega arith)
take-append (x ∷ xs) ys zero h = absurd (omega arith)
take-append (x ∷ xs) ys (suc k) h = ap (x ∷◌) (take-append xs ys k (omega arith))

drop-append : (xs ys : List ℕ) (k : ℕ) → length xs ≡ k → drop k (xs ++ ys) ≡ ys
drop-append [] ys zero h = refl
drop-append [] ys (suc k) h = absurd (omega arith)
drop-append (x ∷ xs) ys zero h = absurd (omega arith)
drop-append (x ∷ xs) ys (suc k) h = drop-append xs ys k (omega arith)

substring_middle :
    (xs ys zs : List ℕ) (a b : ℕ)
    → a ≡ length xs
    → b ≡ length xs + length ys
    → substring (xs ++ (ys ++ zs)) a b ≡ ys
unfolding substring
substring_middle xs ys zs a b h k =
    let low : min a b ≡ a = omega arith in
    let high : max a b ≡ b = omega arith in
    rw
      (
        low,
        high,
        ← append_assoc xs ys zs,
        take-append (xs ++ ys) zs b (omega (arith, length-append xs ys)),
      )
      (drop-append xs ys a (sym h))

module _ (k n : ℕ) where
  abbrev digits : List ℕ
  digits = fixed_digits (suc (suc (suc k))) n

  abbrev front : List ℕ
  front = fixed_digits k (n / 10 / 10 / 10)

  figure_digits : (a : ℕ) → a ≡ k → substring digits 0 a ≡ front
  figure_digits a h = rw fixed_digits-three (
      substring_middle [] front _ 0 a refl
        (omega (arith, length-fixed_digits k (n / 10 / 10 / 10))))

  pips_digits :
      (a b : ℕ) → a ≡ k → b ≡ k + 2 → substring digits a b ≡ (n / 10 / 10 % 10) ∷ (n / 10 % 10) ∷ []
  pips_digits a b h e = rw fixed_digits-three (
      substring_middle front ((n / 10 / 10 % 10) ∷ (n / 10 % 10) ∷ []) ((n % 10) ∷ []) a b
        (omega (arith, length-fixed_digits k (n / 10 / 10 / 10)))
        (omega (arith, length-fixed_digits k (n / 10 / 10 / 10))))

  fraction_digits : (a b : ℕ) → a ≡ k + 2 → b ≡ k + 3 → substring digits a b ≡ (n % 10) ∷ []
  fraction_digits a b h e =
      let xs = front ++ (n / 10 / 10 % 10) ∷ (n / 10 % 10) ∷ [] in
      let len : length xs ≡ k + 2 = omega (
        arith,
        length-append front ((n / 10 / 10 % 10) ∷ (n / 10 % 10) ∷ []),
        length-fixed_digits k (n / 10 / 10 / 10),
      ) in
      let regroup : digits ≡ xs ++ ((n % 10) ∷ [] ++ []) =
        fixed_digits-three k n ∙ sym (append_assoc front _ ((n % 10) ∷ [])) in
      rw regroup (substring_middle xs ((n % 10) ∷ []) [] a b (omega arith) (omega arith))

  thousands : n / 10 ^ suc (suc (suc k)) ≡ n / 10 / 10 / 10 / 10 ^ k
  thousands =
      div-pow-suc n (suc (suc k)) ∙ div-pow-suc (n / 10) (suc k) ∙ div-pow-suc (n / 10 / 10) k

-- The parts of a rate with three digits behind the big figure, written out.
abbrev parts : Decimal → ℕ → Rate
parts raw k =
    let n = to_fixed_units raw (suc (suc (suc k))) in
    record {
      raw_rate = raw;
      big_figure = record { mantissa = n / 10 / 10 / 10; scale = k };
      pips = n / 10 / 10 % 10 * 10 + n / 10 % 10;
      pip_fraction = n % 10;
    }

new_rate-eq-parts :
    (raw : Decimal) (k : ℕ)
    → k ≤ 17
    → raw.mantissa < 10 ^ 21 * 10 ^ raw.scale
    → new_rate raw (suc (suc (suc k))) (suc (suc k)) ≡ returns (parts raw k)
unfolding new_rate has_exponent too_many_digits
new_rate-eq-parts raw k few small =
    let n = to_fixed_units raw (suc (suc (suc k))) in
    rw
      (
        figure_digits k n (suc (suc k) - 2) (omega arith),
        pips_digits k n (suc (suc k) - 2) (suc (suc k)) (omega arith) (omega arith),
        fraction_digits k n (suc (suc k)) (suc (suc k) + 1) (omega arith) (omega arith),
        thousands k n,
      )
      (ground (
        arith,
        few,
        small,
        number_from-fixed_digits k (n / 10 / 10 / 10),
        length-fixed_digits k (n / 10 / 10 / 10),
      ))

-- A rate below 10 ^ 21 of a pair whose precision, at most 20, is one digit more than its pips position,
-- which is at least 2: the constructor does not throw, the big figure has two decimals less than that
-- position, the pips are below 100 and the fraction below 10, and the three together are the digits of
-- the raw rate rounded to the precision.
pub new_rate-parts :
    (raw : Decimal) (k : ℕ)
    → k + 3 ≤ 20
    → raw.mantissa < 10 ^ 21 * 10 ^ raw.scale
    → let pip_precision = k + 2 in
      (r : Rate) × (new_rate raw (pip_precision + 1) pip_precision ≡ returns r)
      × (r.big_figure.scale + 2 ≡ pip_precision)
      × (r.pips < 100)
      × (r.pip_fraction < 10)
      × (r.big_figure.mantissa * 1000 + r.pips * 10 + r.pip_fraction
          ≡ to_fixed_units raw (pip_precision + 1))
new_rate-parts raw k few small =
    rw (add-two k, add-one (suc (suc k)))
      (
        parts raw k,
        new_rate-eq-parts raw k (omega (arith, few)) small,
        omega arith,
        omega arith,
        omega arith,
        omega arith,
      )
