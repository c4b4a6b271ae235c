-- ===== src/Ui/Analytics/Bubbles/Unchanged.antt =====
-- When the chart takes its positions for unchanged, they are.
use mathlib.Core.List.{Mem, Nodup, Nodup-cons, mem-cons_self, append-nil, mem-cons_of_mem}
use reactive_trader_cloud.Common.{
  true, false, List, [], ◌∷◌, ◌++◌, ◌===◌, any, ◌≡◌, refl, sym, ap, ◌∙◌, subst, arith, eq_iff,
  Bool-cases, inl, inr,
}
use reactive_trader_cloud.Common.Int.{eq_of_parts}
use reactive_trader_cloud.Ui.Analytics.Positions.{Position}
use reactive_trader_cloud.Ui.Analytics.Positions.Totals.{symbols}
use reactive_trader_cloud.Ui.Analytics.Bubbles.{is_modified, has_stale, same_position}

same_position_eq : (p q : Position) → same_position p q ≡ true → p ≡ q
same_position_eq p q e =
    ground (arith, eq_iff p.symbol q.symbol, eq_of_parts p.base_traded_amount q.base_traded_amount)

unmodified :
    (ps old : List Position)
    → is_modified ps old ≡ false
    → (rest : List Position) × (old ≡ ps ++ rest)
unfolding is_modified
unmodified [] old e = (old, refl)
unmodified (p ∷ ps) [] e = cc
unmodified (p ∷ ps) (q ∷ old) e =
    let same : same_position p q ≡ true = ground arith in
    let (rest, r) = unmodified ps old (ground arith) in
    (rest, ap (λ x. x ∷ old) (sym (same_position_eq p q same)) ∙ ap (λ x. p ∷ x) r)

has_stale-append :
    (ps xs rest : List Position) → has_stale ps (xs ++ rest) ≡ false → has_stale ps rest ≡ false
unfolding has_stale
has_stale-append ps [] rest e = e
has_stale-append ps (x ∷ xs) rest e = has_stale-append ps xs rest (ground arith)

mem_later :
    (xs : List Position) (r : Position) (rs : List Position) → Mem r.symbol (symbols (xs ++ r ∷ rs))
mem_later [] r rs = mem-cons_self
mem_later (x ∷ xs) r rs = mem-cons_of_mem x.symbol (mem_later xs r rs)

shown_before :
    (xs : List Position) (r : Position) (rs : List Position)
    → Nodup (symbols (xs ++ r ∷ rs))
    → any (λ (p : Position). p.symbol === r.symbol) xs ≡ false
unfolding any
shown_before [] r rs d = refl
shown_before (x ∷ xs) r rs d =
    let (first, rest) = Nodup-cons.0 d in
    elim (Bool-cases (x.symbol === r.symbol)) [
      | inl e ↦ absurd (
          first (
            subst (λ k. Mem k (symbols (xs ++ r ∷ rs))) (sym ((eq_iff x.symbol r.symbol).0 e))
              (mem_later xs r rs)))
      | inr e ↦ rw e (shown_before xs r rs rest)
    ]

nothing_left :
    (ps old rest : List Position)
    → old ≡ ps ++ rest
    → Nodup (symbols old)
    → has_stale ps rest ≡ false
    → old ≡ ps
unfolding has_stale
nothing_left ps old [] r d f = r ∙ append-nil ps
nothing_left ps old (q ∷ rest) r d f =
    let before = shown_before ps q rest (subst (λ x. Nodup (symbols x)) r d) in ground arith

-- If no position differs from the one before and none is gone, the positions are the ones before.
pub unchanged_eq :
    (ps old : List Position)
    → Nodup (symbols old)
    → is_modified ps old ≡ false
    → has_stale ps old ≡ false
    → old ≡ ps
unfolding has_stale
unchanged_eq ps old d e f =
    let (rest, r) = unmodified ps old e in
    nothing_left ps old rest r d (has_stale-append ps ps rest (ap (has_stale ps) (sym r) ∙ f))
