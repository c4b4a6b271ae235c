-- ===== src/Ui/Analytics/Bounds.antt =====
-- What the chart of profits shows.
use mathlib.Core.List.{Mem, mem-cons_self, mem-cons_of_mem}
use reactive_trader_cloud.Common.{
  ◌≡◌, refl, sym, ◌∙◌, subst, ap, String, Option, none, some, List, [], ◌∷◌, All, map, ◌⊎◌, inl,
  inr, arith, Option-cases, Bool-cases,
}
use reactive_trader_cloud.Common.Int.{ℤ, pos, min_ℤ, max_ℤ, ◌≤ℤ◌, ltb_ℤ}
use reactive_trader_cloud.Services.Models.{HistoricPosition}
use reactive_trader_cloud.Ui.Analytics.{PricePoint, PnlChartModel, process, update}

-- The profits that are there.
abbrev pub profits : List HistoricPosition → List ℤ
profits [] = []
profits (item ∷ items) = elim item.usd_pnl [ none ↦ profits items | some p ↦ p ∷ profits items ]

abbrev pub last_of : Option String → List String → Option String
last_of before [] = before
last_of before (x ∷ xs) = last_of (some x) xs

-- Bounds for some profits, from bounds that are there at the start: they hold, and each is the bound
-- at the start or one of the profits.
pub record IsBounded (low high : ℤ) (ps : List ℤ) (m : PnlChartModel) : Type 0 where
  pub below : m.min_pnl ≤ℤ low
  pub above : high ≤ℤ m.max_pnl
  pub within : All (λ p. (m.min_pnl ≤ℤ p) × (p ≤ℤ m.max_pnl)) ps
  pub min_attained : (m.min_pnl ≡ low) ⊎ Mem m.min_pnl ps
  pub max_attained : (m.max_pnl ≡ high) ⊎ Mem m.max_pnl ps

≤ℤ_refl : (a : ℤ) → a ≤ℤ a
≤ℤ_refl a = ground arith

≤ℤ_trans : (a b c : ℤ) → a ≤ℤ b → b ≤ℤ c → a ≤ℤ c
≤ℤ_trans a b c h k = ground arith

min_bounds : (a b : ℤ) → (min_ℤ a b ≤ℤ a) × (min_ℤ a b ≤ℤ b) × ((min_ℤ a b ≡ a) ⊎ (min_ℤ a b ≡ b))
unfolding min_ℤ
min_bounds a b = elim (Bool-cases (ltb_ℤ b a)) [
  | inl e ↦ rw e (ground arith, ≤ℤ_refl b, inr refl)
  | inr e ↦ rw e (≤ℤ_refl a, ground arith, inl refl)
]

max_bounds : (a b : ℤ) → (a ≤ℤ max_ℤ a b) × (b ≤ℤ max_ℤ a b) × ((max_ℤ a b ≡ a) ⊎ (max_ℤ a b ≡ b))
unfolding max_ℤ
max_bounds a b = elim (Bool-cases (ltb_ℤ a b)) [
  | inl e ↦ rw e (ground arith, ≤ℤ_refl b, inr refl)
  | inr e ↦ rw e (≤ℤ_refl a, ground arith, inl refl)
]

-- A bound that is attained among the later profits, or at the start, is attained.
attained :
    (a b low p : ℤ) (ps : List ℤ)
    → (a ≡ b) ⊎ Mem a ps
    → (b ≡ low) ⊎ (b ≡ p)
    → (a ≡ low) ⊎ Mem a (p ∷ ps)
attained a b low p ps (inl e) (inl c) = inl (e ∙ c)
attained a b low p ps (inl e) (inr c) =
    inr (subst (λ x. Mem x (p ∷ ps)) (sym (e ∙ c)) (mem-cons_self {a = p} {l = ps}))
attained a b low p ps (inr m) c = inr (mem-cons_of_mem p m)

module _ (to_fixed : ℤ → String) where
  widen :
      (low high p : ℤ) (ps : List ℤ) (points : List PricePoint) (m : PnlChartModel)
      → IsBounded (min_ℤ low p) (max_ℤ high p) ps m
      → IsBounded low high (p ∷ ps) (record m { series_data = points })
  widen low high p ps points m b =
      let (l, r, c) = min_bounds low p in
      let (l', r', c') = max_bounds high p in
      record {
        below = ≤ℤ_trans m.min_pnl (min_ℤ low p) low b.below l;
        above = ≤ℤ_trans high (max_ℤ high p) m.max_pnl l' b.above;
        within = (
          (
            ≤ℤ_trans m.min_pnl (min_ℤ low p) p b.below r,
            ≤ℤ_trans p (max_ℤ high p) m.max_pnl r' b.above,
          ),
          b.within,
        );
        min_attained = attained m.min_pnl (min_ℤ low p) low p ps b.min_attained c;
        max_attained = attained m.max_pnl (max_ℤ high p) high p ps b.max_attained c';
      }

  process-IsBounded :
      (last : Option String) (low high : ℤ) (items : List HistoricPosition)
      → IsBounded low high (profits items) (process to_fixed last low high items)
  unfolding process
  process-IsBounded last low high [] = record {
    below = ≤ℤ_refl low;
    above = ≤ℤ_refl high;
    within = tt;
    min_attained = inl refl;
    max_attained = inl refl;
  }
  process-IsBounded last low high (item ∷ items) = elim (Option-cases item.usd_pnl) [
    | inl e ↦ rw e (process-IsBounded last low high items)
    | inr (p, e) ↦ rw e (
        widen low high p (profits items) _ _
          (process-IsBounded (some (to_fixed p)) (min_ℤ low p) (max_ℤ high p) items))
  ]

  process-shown :
      (last : Option String) (low high : ℤ) (items : List HistoricPosition)
      → let m = process to_fixed last low high items in
        (map (λ p. p.y) m.series_data ≡ map to_fixed (profits items))
        × (m.last_pos ≡ last_of last (map to_fixed (profits items)))
  unfolding process
  process-shown last low high [] = (refl, refl)
  process-shown last low high (item ∷ items) = elim (Option-cases item.usd_pnl) [
    | inl e ↦ rw e (process-shown last low high items)
    | inr (p, e) ↦
        let (s, l) = process-shown (some (to_fixed p)) (min_ℤ low p) (max_ℤ high p) items in
        rw e (ap (to_fixed p ∷◌) s, l)
  ]

  -- After an update the smallest profit of the chart is at most 0 and the largest at least 0,
  -- every profit that is not missing lies between them, and each of the two is 0 or one of the
  -- profits; the points show the formats of those profits in order, and the last position is that
  -- of the last point, if there is one.
  pub update-IsBounded :
      (positions : List HistoricPosition)
      → let m = update to_fixed (some positions) in
        IsBounded (pos 0) (pos 0) (profits positions) m
        × (map (λ p. p.y) m.series_data ≡ map to_fixed (profits positions))
        × (m.last_pos ≡ last_of none (map (λ p. p.y) m.series_data))
  unfolding update
  update-IsBounded positions =
      let (s, l) = process-shown none (pos 0) (pos 0) positions in
      (process-IsBounded none (pos 0) (pos 0) positions, s, l ∙ ap (last_of none) (sym s))
