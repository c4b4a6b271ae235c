-- ===== src/Ui/Blotter/Ids.antt =====
-- No trade is shown in two rows of the blotter, and a state of the world is shown in order.
use mathlib.Core.List.{
  Perm, Pairwise, Nodup, Nodup-cons, Nodup-nil, Mem, reverse_perm, Pairwise-reverse, Pairwise-map,
  map-map, mem-cons, map-id, not-mem-nil,
}
use mathlib.Core.List.Perm
use mathlib.Core.Logic.Or
use native.Mathlib.Bridge.{le_prop}
use reactive_trader_cloud.Common.{
  ℕ, ◌≤◌, ◌≡◌, refl, sym, ap, ◌∙◌, subst, Bool, true, false, none, some, List, [], ◌∷◌, map,
  reverse, find, if◌then◌else◌, Bool-cases, inl, inr, All, arith,
}
use reactive_trader_cloud.Services.Models.{Trade, TradesUpdate, TradeRow}
use reactive_trader_cloud.Ui.Arrays.{modify_at, modify_first, find_index-cases, map-modify_first}
use reactive_trader_cloud.Ui.Blotter.{
  SortTrades, BlotterModel, Event, trades_update, init, reference_data_loaded, tear_off_blotter,
  highlight_trade_row, end_highlight_trade_row, fetch_blotter, service_status, has_id,
  new_trade_row, apply_trade, apply_trades, on_trades_update, on_highlight_trade_row,
  on_end_highlight_trade_row, on_service_status, step, run,
}

abbrev pub ids : List TradeRow → List ℕ
ids rows = map (λ r. r.trade.trade_id) rows

abbrev pub sent_ids : List Trade → List ℕ
sent_ids trades = map (λ t. t.trade_id) trades

not_found : (k : ℕ) (rows : List TradeRow) → find (has_id k) rows ≡ none → ¬ Mem k (ids rows)
unfolding find
not_found k [] h m = not-mem-nil m
not_found k (r ∷ rows) h m = elim (Bool-cases (has_id k r)) [
  | inl e ↦ ground arith
  | inr e ↦
      let never : IsProp ⊥ = hlevel in
      Or.elim never (mem-cons.0 m) (λ c. ground arith) (not_found k rows (ground arith))
]

ids-modify_at :
    (k : ℕ) (f : TradeRow → TradeRow) (rows : List TradeRow) (i : ℕ)
    → ((r : TradeRow) → has_id k r ≡ true → (f r).trade.trade_id ≡ r.trade.trade_id)
    → modify_at i f rows ≡ modify_first (has_id k) f rows
    → ids (modify_at i f rows) ≡ ids rows
ids-modify_at k f rows i keep e =
    ap ids e ∙ map-modify_first (λ r. r.trade.trade_id) (has_id k) f rows keep

apply_trade-Nodup :
    (t : Trade) (rows : List TradeRow) → Nodup (ids rows) → Nodup (ids (apply_trade t rows))
unfolding apply_trade new_trade_row
apply_trade-Nodup t rows h =
    elim (find_index-cases (has_id t.trade_id) (λ row. new_trade_row t) rows) [
      | inl (i, e, m, a) ↦
          rw (apply_trade, e)
            (subst Nodup
              (sym
                (ids-modify_at t.trade_id (λ row. new_trade_row t) rows i (λ r k. ground arith) m))
              h)
      | inr (e, n) ↦ rw (apply_trade, e) (Nodup-cons.1 (not_found t.trade_id rows n, h))
    ]

apply_trades-Nodup :
    (ts : List Trade) (rows : List TradeRow)
    → Nodup (ids rows)
    → Nodup (ids (apply_trades ts rows).0)
unfolding apply_trades
apply_trades-Nodup [] rows h = h
apply_trades-Nodup (t ∷ ts) rows h =
    apply_trades-Nodup ts (apply_trade t rows) (apply_trade-Nodup t rows h)

highlight-Nodup :
    (t : Trade) (m : BlotterModel)
    → Nodup (ids m.trades)
    → Nodup (ids (on_highlight_trade_row t m).0.trades)
unfolding on_highlight_trade_row
highlight-Nodup t m h =
    let f = λ (r : TradeRow). record r { is_in_focus = some true } in
    elim (find_index-cases (has_id t.trade_id) f m.trades) [
      | inl (i, e, k, a) ↦
          rw (on_highlight_trade_row, e)
            (subst Nodup (sym (ids-modify_at t.trade_id f m.trades i (λ r k. refl) k)) h)
      | inr (e, n) ↦ rw (on_highlight_trade_row, e) h
    ]

end_highlight-Nodup :
    (t : Trade) (m : BlotterModel)
    → Nodup (ids m.trades)
    → Nodup (ids (on_end_highlight_trade_row t m).trades)
unfolding on_end_highlight_trade_row
end_highlight-Nodup t m h =
    let f = λ (r : TradeRow). record r { is_in_focus = some false } in
    elim (find_index-cases (has_id t.trade_id) f m.trades) [
      | inl (i, e, k, a) ↦
          rw (on_end_highlight_trade_row, e)
            (subst Nodup (sym (ids-modify_at t.trade_id f m.trades i (λ r k. refl) k)) h)
      | inr (e, n) ↦ rw (on_end_highlight_trade_row, e) h
    ]

status-Nodup :
    (b : Bool) (m : BlotterModel)
    → Nodup (ids m.trades)
    → Nodup (ids (on_service_status b m).trades)
unfolding on_service_status
status-Nodup true m h = h
status-Nodup false m h = Nodup-nil

-- A state of the world does not name a trade twice; other updates may.
abbrev pub IsPlainEvent : Event → Type 0
IsPlainEvent (trades_update u) = if u.is_state_of_the_world then Nodup (sent_ids u.trades) else Unit
IsPlainEvent _ = Unit

module _ (lodash : SortTrades) where
  -- The rows of a state of the world, and the ids of its trades.
  sow_ids :
      (ts : List Trade)
      → Perm (ids (map new_trade_row (reverse (lodash.sort_by_trade_id ts)))) (sent_ids ts)
  unfolding new_trade_row
  sow_ids ts =
      rw (map-map (λ r. r.trade.trade_id) new_trade_row (reverse (lodash.sort_by_trade_id ts))) (
        Perm.map (λ t. t.trade_id)
          (Perm.trans (reverse_perm (lodash.sort_by_trade_id ts)) (lodash.same_trades ts)))

  trades_update-Nodup :
      (u : TradesUpdate) (m : BlotterModel)
      → IsPlainEvent (trades_update u)
      → Nodup (ids m.trades)
      → Nodup (ids (on_trades_update lodash u m).0.trades)
  unfolding on_trades_update
  trades_update-Nodup u m p h = elim (Bool-cases u.is_state_of_the_world) [
    | inl e ↦ rw e (Perm.nodup (Perm.symm (sow_ids u.trades)) (ground arith))
    | inr e ↦ rw e (apply_trades-Nodup u.trades m.trades h)
  ]

  step-Nodup :
      (event : Event) (m : BlotterModel)
      → IsPlainEvent event
      → Nodup (ids m.trades)
      → Nodup (ids (step lodash event m).0.trades)
  unfolding step
  step-Nodup init m p h = h
  step-Nodup reference_data_loaded m p h = h
  step-Nodup tear_off_blotter m p h = h
  step-Nodup (highlight_trade_row t) m p h = highlight-Nodup t m h
  step-Nodup (end_highlight_trade_row t) m p h = end_highlight-Nodup t m h
  step-Nodup (fetch_blotter uuid) m p h = h
  step-Nodup (trades_update u) m p h = trades_update-Nodup u m p h
  step-Nodup (service_status b) m p h = status-Nodup b m h

  -- After any events no two rows of the blotter have the same trade id, if that was so before and
  -- no state of the world names a trade id twice.
  pub run-Nodup :
      (events : List Event) (m : BlotterModel)
      → All IsPlainEvent events
      → Nodup (ids m.trades)
      → Nodup (ids (run lodash m events).0.trades)
  unfolding run
  run-Nodup [] m p h = h
  run-Nodup (event ∷ events) m p h =
      run-Nodup events (step lodash event m).0 p.1 (step-Nodup event m p.0 h)

  -- After a state of the world the rows are those of its trades, each as often as it was sent,
  -- with their ids descending, and nothing is notified; this for every sortBy that orders the
  -- trades by id and permutes them.
  pub on_trades_update-sow :
      (u : TradesUpdate) (m : BlotterModel)
      → u.is_state_of_the_world ≡ true
      → let (m', effects) = on_trades_update lodash u m in
        Perm (map (λ r. r.trade) m'.trades) u.trades
        × Pairwise (λ a b. b ≤ a) (ids m'.trades)
        × (effects ≡ [])
  unfolding on_trades_update new_trade_row
  on_trades_update-sow u m e = rw e (
    rw (map-map (λ r. r.trade) new_trade_row (reverse (lodash.sort_by_trade_id u.trades))) (
        rw (map-id (reverse (lodash.sort_by_trade_id u.trades))) (
          Perm.trans (reverse_perm (lodash.sort_by_trade_id u.trades))
            (lodash.same_trades u.trades))),
    (Pairwise-map (λ a b. le_prop) (λ (r : TradeRow). r.trade.trade_id)).1 (
        (Pairwise-map (λ a b. le_prop) new_trade_row).1
          ((Pairwise-reverse (λ a b. le_prop)).1 (lodash.ascending u.trades))),
    refl,
  )
