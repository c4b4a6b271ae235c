-- ===== src/Ui/Blotter/Updates.antt =====
-- What the updates of the trade stream show and notify.
use mathlib.Core.Option.{map as option_map}
use reactive_trader_cloud.Common.{
  ℕ, ◌≡◌, refl, ap, ◌∙◌, true, false, Option, some, List, [], ◌∷◌, ◌++◌, find, any, if◌then◌else◌,
  ◌==◌, Bool-cases, inl, inr, arith,
}
use reactive_trader_cloud.Services.Models.{Trade, TradesUpdate, TradeRow}
use reactive_trader_cloud.Ui.Arrays.{modify_first, find_index-cases}
use reactive_trader_cloud.Ui.Blotter.{
  SortTrades, BlotterModel, Event, trades_update, has_id, Effect, open_trade_notification,
  new_trade_row, apply_trade, apply_trades, on_trades_update,
}

-- The trade of the first row with an id.
unfoldable pub shown : ℕ → List TradeRow → Option Trade
unfolding find
shown k rows = option_map (λ r. r.trade) (find (has_id k) rows)

-- The last of some trades with an id, or what there was before them.
abbrev pub latest : ℕ → List Trade → Option Trade → Option Trade
latest k [] before = before
latest k (t ∷ ts) before = latest k ts (if t.trade_id == k then some t else before)

shown-modify_first :
    (k : ℕ) (t : Trade) (rows : List TradeRow)
    → any (has_id t.trade_id) rows ≡ true
    → shown k (modify_first (has_id t.trade_id) (λ row. new_trade_row t) rows)
      ≡ (if t.trade_id == k then some t else shown k rows)
unfolding shown modify_first any new_trade_row find
shown-modify_first k t [] a = cc
shown-modify_first k t (r ∷ rows) a = elim (Bool-cases (has_id t.trade_id r)) [
  | inl e ↦ ground arith
  | inr e ↦ ground (arith, shown-modify_first k t rows (ground arith))
]

shown-new :
    (k : ℕ) (t : Trade) (rows : List TradeRow)
    → shown k (record (new_trade_row t) { is_new = some true } ∷ rows)
      ≡ (if t.trade_id == k then some t else shown k rows)
unfolding shown find new_trade_row
shown-new k t rows = ground arith

shown-apply_trade :
    (k : ℕ) (t : Trade) (rows : List TradeRow)
    → shown k (apply_trade t rows) ≡ (if t.trade_id == k then some t else shown k rows)
unfolding apply_trade
shown-apply_trade k t rows =
    elim (find_index-cases (has_id t.trade_id) (λ row. new_trade_row t) rows) [
      | inl (i, e, m, a) ↦ rw (apply_trade, e) (ap (shown k) m ∙ shown-modify_first k t rows a)
      | inr (e, n) ↦ rw (apply_trade, e) (shown-new k t rows)
    ]

shown-apply_trades :
    (k : ℕ) (ts : List Trade) (rows : List TradeRow)
    → shown k (apply_trades ts rows).0 ≡ latest k ts (shown k rows)
unfolding apply_trades
shown-apply_trades k [] rows = refl
shown-apply_trades k (t ∷ ts) rows =
    shown-apply_trades k ts (apply_trade t rows) ∙ ap (latest k ts) (shown-apply_trade k t rows)

-- The trades that some calls announce.
abbrev pub notified : List Effect → List Trade
notified [] = []
notified (open_trade_notification t ∷ effects) = t ∷ notified effects
notified (_ ∷ effects) = notified effects

-- The trades that the updates among some events carry, those of a state of the world left out.
abbrev pub updated_trades : List Event → List Trade
updated_trades [] = []
updated_trades (trades_update u ∷ events) =
    if u.is_state_of_the_world then updated_trades events else u.trades ++ updated_trades events
updated_trades (_ ∷ events) = updated_trades events

module _ (lodash : SortTrades) where
  -- After an update that is no state of the world, the first row with an id shows the last trade
  -- that the update has of it, and what it showed before if the update has none.
  pub shown-on_trades_update :
      (u : TradesUpdate) (m : BlotterModel) (k : ℕ)
      → u.is_state_of_the_world ≡ false
      → shown k (on_trades_update lodash u m).0.trades ≡ latest k u.trades (shown k m.trades)
  unfolding on_trades_update
  shown-on_trades_update u m k e = rw e (shown-apply_trades k u.trades m.trades)
