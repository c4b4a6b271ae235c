-- ===== src/Ui/Analytics/Positions/Totals.antt =====
-- The positions of the bubble chart are the totals of the pairs' positions.
use mathlib.Core.List.{Mem, mem-cons, not-mem-nil, Nodup, Nodup-nil, Nodup-cons}
use mathlib.Core.Logic.Or
use reactive_trader_cloud.Common.{
  String, true, false, not, Option, none, some, List, [], ◌∷◌, map, ◌===◌, if◌then◌else◌, fold,
  fold_inv, filter, ◌≡◌, refl, sym, ap, ◌∙◌, subst, arith, eq_iff, Bool-cases, inl, inr,
}
use reactive_trader_cloud.Common.Int.{ℤ, pos, ◌+ℤ◌, +ℤ_assoc}
use reactive_trader_cloud.Common.Dict.{Dict, lookup, lookup-insert, Distinct, insert-Distinct}
use reactive_trader_cloud.Services.Models.{CurrencyPairPosition}
use reactive_trader_cloud.Ui.Analytics.Positions.{
  added, Position, is_zero, aggregate, position_of, get_positions_data_from_series,
}

-- The sum of the amounts of the pairs with a base currency.
abbrev pub total : String → List CurrencyPairPosition → ℤ
total k [] = pos 0
total k (p ∷ ps) =
    let rest = total k ps in
    if p.currency_pair.base === k then p.base_traded_amount +ℤ rest else rest

-- What the chart shows of a currency.
abbrev pub amount : String → List Position → Option ℤ
amount k [] = none
amount k (p ∷ ps) = if p.symbol === k then some p.base_traded_amount else amount k ps

abbrev pub nonzero : ℤ → Option ℤ
nonzero a = if is_zero a then none else some a

-- A missing total counts as 0.
abbrev or_zero : Option ℤ → ℤ
or_zero none = pos 0
or_zero (some a) = a

+ℤ_zero_left : (a : ℤ) → pos 0 +ℤ a ≡ a
unfolding ◌+ℤ◌
+ℤ_zero_left a = ground arith

+ℤ_zero_right : (a : ℤ) → a +ℤ pos 0 ≡ a
unfolding ◌+ℤ◌
+ℤ_zero_right a = ground arith

is_zero_eq : (a : ℤ) → is_zero a ≡ true → a ≡ pos 0
is_zero_eq a e = ground arith

added_eq : (o : Option ℤ) (a : ℤ) → added o a ≡ or_zero o +ℤ a
added_eq none a = sym (+ℤ_zero_left a)
added_eq (some t) a = elim (Bool-cases (is_zero t)) [
  | inl e ↦ rw (e, is_zero_eq t e) (sym (+ℤ_zero_left a))
  | inr e ↦ rw e refl
]

aggregate-lookup :
    (k : String) (totals : Dict ℤ) (p : CurrencyPairPosition)
    → or_zero (lookup k (aggregate totals p)) ≡ (
        if p.currency_pair.base === k
        then or_zero (lookup k totals) +ℤ p.base_traded_amount
        else or_zero (lookup k totals))
unfolding aggregate
aggregate-lookup k totals p =
    let b = p.currency_pair.base in
    let v = added (lookup b totals) p.base_traded_amount in
    ap or_zero (lookup-insert k b v totals) ∙ elim (Bool-cases (b === k)) [
      | inl e ↦ rw e (
          added_eq (lookup b totals) p.base_traded_amount
          ∙ ap (λ x. or_zero (lookup x totals) +ℤ p.base_traded_amount) ((eq_iff b k).0 e))
      | inr e ↦ rw e refl
    ]

fold-total :
    (k : String) (totals : Dict ℤ) (series : List CurrencyPairPosition)
    → or_zero (lookup k (fold aggregate totals series))
      ≡ or_zero (lookup k totals) +ℤ total k series
unfolding fold
fold-total k totals [] = sym (+ℤ_zero_right (or_zero (lookup k totals)))
fold-total k totals (p ∷ ps) =
    fold-total k (aggregate totals p) ps
    ∙ ap (λ x. x +ℤ total k ps) (aggregate-lookup k totals p)
    ∙ elim (Bool-cases (p.currency_pair.base === k)) [
      | inl e ↦ rw e (+ℤ_assoc (or_zero (lookup k totals)) p.base_traded_amount (total k ps))
      | inr e ↦ rw e refl
    ]

aggregate-Distinct :
    (totals : Dict ℤ) (p : CurrencyPairPosition) → Distinct totals → Distinct (aggregate totals p)
unfolding aggregate
aggregate-Distinct totals p d =
    insert-Distinct p.currency_pair.base
      (added (lookup p.currency_pair.base totals) p.base_traded_amount) totals d

abbrev shown : Dict ℤ → List Position
shown totals =
    filter (λ (p : Position). not (is_zero p.base_traded_amount)) (map position_of totals)

amount-absent :
    (k : String) (totals : Dict ℤ) → lookup k totals ≡ none → amount k (shown totals) ≡ none
unfolding filter lookup
amount-absent k [] e = refl
amount-absent k ((j, v) ∷ totals) e = ground (arith, amount-absent k totals)

amount-shown :
    (k : String) (totals : Dict ℤ)
    → Distinct totals
    → amount k (shown totals) ≡ nonzero (or_zero (lookup k totals))
unfolding filter lookup
amount-shown k [] d = refl
amount-shown k ((j, v) ∷ totals) d =
    ground (arith, amount-shown k totals d.1, amount-absent k totals, eq_iff j k)

-- The chart shows of every currency the sum of the amounts of the pairs that have it as their base,
-- unless that is 0.
pub amount-get_positions_data_from_series :
    (k : String) (series : List CurrencyPairPosition)
    → amount k (get_positions_data_from_series series) ≡ nonzero (total k series)
unfolding get_positions_data_from_series lookup
amount-get_positions_data_from_series k series =
    amount-shown k (fold aggregate [] series)
      (fold_inv Distinct aggregate aggregate-Distinct series [] tt)
    ∙ ap nonzero (fold-total k [] series ∙ +ℤ_zero_left (total k series))

abbrev pub symbols : List Position → List String
symbols ps = map (λ p. p.symbol) ps

shown-zero :
    (j : String) (v : ℤ) (totals : Dict ℤ)
    → is_zero v ≡ true
    → shown ((j, v) ∷ totals) ≡ shown totals
unfolding filter
shown-zero j v totals z = rw z refl

shown-nonzero :
    (j : String) (v : ℤ) (totals : Dict ℤ)
    → is_zero v ≡ false
    → shown ((j, v) ∷ totals) ≡ position_of (j, v) ∷ shown totals
unfolding filter
shown-nonzero j v totals z = rw z refl

not_mem-shown :
    (k : String) (totals : Dict ℤ) → lookup k totals ≡ none → Mem k (symbols (shown totals)) → ⊥
unfolding lookup filter
not_mem-shown k [] e m = not-mem-nil m
not_mem-shown k ((j, v) ∷ totals) e m =
    let other : (j === k) ≡ false = ground arith in
    let rest : lookup k totals ≡ none = ground arith in
    let has = λ (ps : List Position). Mem k (symbols ps) in
    elim (Bool-cases (is_zero v)) [
      | inl z ↦ not_mem-shown k totals rest (subst has (shown-zero j v totals z) m)
      | inr z ↦
          let m' : Mem k (j ∷ symbols (shown totals)) = subst has (shown-nonzero j v totals z) m in
          let never : IsProp ⊥ = hlevel in
          Or.elim never (mem-cons.0 m') (λ e. ground (arith, eq_iff j k))
            (not_mem-shown k totals rest)
    ]

shown-Nodup : (totals : Dict ℤ) → Distinct totals → Nodup (symbols (shown totals))
unfolding filter lookup
shown-Nodup [] d = Nodup-nil
shown-Nodup ((j, v) ∷ totals) d = elim (Bool-cases (is_zero v)) [
  | inl z ↦ rw z (shown-Nodup totals d.1)
  | inr z ↦ rw z (Nodup-cons.1 (not_mem-shown j totals d.0, shown-Nodup totals d.1))
]

-- No currency is shown twice.
pub get_positions_data_from_series-Nodup :
    (series : List CurrencyPairPosition) → Nodup (symbols (get_positions_data_from_series series))
unfolding get_positions_data_from_series
get_positions_data_from_series-Nodup series =
    shown-Nodup (fold aggregate [] series)
      (fold_inv Distinct aggregate aggregate-Distinct series [] tt)
