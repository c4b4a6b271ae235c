-- ===== src/Ui/Blotter/Tests.antt =====
-- The blotter at concrete events.
use mathlib.Core.HLevel.{hedberg}
use mathlib.Core.List.{Perm, Pairwise, Nodup, Nodup-nil, Nodup-cons, Mem, not-mem-nil, mem-cons}
use mathlib.Core.Logic.Or
use reactive_trader_cloud.Common.{
  ℕ, ◌≤◌, ◌≡◌, refl, Bool, true, false, Option, some, List, [], ◌∷◌, map, All, All-mem, arith,
}
use reactive_trader_cloud.Common.Sorting.{sort, sort-perm, sort-IsSorted, IsSorted, le_key}
use reactive_trader_cloud.Services.Models.{Trade, TradeStatus, pending, done, TradesUpdate}
use reactive_trader_cloud.Services.Mappers.Tests.{trade}
use reactive_trader_cloud.Ui.Blotter.{
  SortTrades, BlotterModel, Event, trades_update, highlight_trade_row, service_status, new, run,
  on_trades_update,
}
use reactive_trader_cloud.Ui.Blotter.Ids.{ids, IsPlainEvent, run-Nodup, on_trades_update-sow}

abbrev by_id : Trade → Option ℕ
by_id t = some t.trade_id

pub le_key-prop : (a b : Option ℕ) → IsProp (le_key a b ≡ true)
le_key-prop a b = let discrete : Discrete Bool = hlevel in hedberg discrete (le_key a b) true

pub IsSorted-Pairwise :
    (ts : List Trade) → IsSorted by_id ts → Pairwise (λ a b. a.trade_id ≤ b.trade_id) ts
IsSorted-Pairwise [] h = Pairwise.nil
IsSorted-Pairwise (t ∷ ts) h =
    Pairwise.cons
      (λ s m.
        let le : le_key (by_id t) (by_id s) ≡ true =
          All-mem (λ y. le_key-prop (by_id t) (by_id y)) ts h.0 s m in
        ground arith)
      (IsSorted-Pairwise ts h.1)

-- A function that meets what is asked of `sortBy`.
abbrev pub sort_trades : SortTrades
sort_trades = record {
  sort_by_trade_id = λ ts. sort by_id ts;
  ascending = λ ts. IsSorted-Pairwise (sort by_id ts) (sort-IsSorted by_id ts);
  same_trades = λ ts. sort-perm by_id ts;
}

abbrev pub numbered : ℕ → TradeStatus → Trade
numbered id status = record trade { trade_id = id; status = status }

abbrev update : Bool → List Trade → TradesUpdate
update sow ts = record { is_state_of_the_world = sow; is_stale = false; trades = ts }

abbrev world : TradesUpdate
world = update true (numbered 1 done ∷ numbered 3 pending ∷ numbered 2 done ∷ [])

abbrev later : TradesUpdate
later = update false (numbered 3 done ∷ numbered 4 pending ∷ [])

abbrev pub events : List Event
events = trades_update world ∷ highlight_trade_row (numbered 2 done) ∷ trades_update later ∷ []

shown_ids : ids (run sort_trades new events).0.trades ≡ 4 ∷ 3 ∷ 2 ∷ 1 ∷ []
unfolding run new sort
shown_ids = refl

disconnected : (run sort_trades new (trades_update world ∷ service_status false ∷ [])).0 ≡ new
unfolding run new sort
disconnected = refl

not_mem-cons : (a b : ℕ) (l : List ℕ) → ¬ (a ≡ b) → ¬ Mem a l → ¬ Mem a (b ∷ l)
not_mem-cons a b l h k m = let never : IsProp ⊥ = hlevel in Or.elim never (mem-cons.0 m) h k

world-Nodup : Nodup {A = ℕ} (1 ∷ 3 ∷ 2 ∷ [])
world-Nodup = Nodup-cons.1 (
  not_mem-cons 1 3 (2 ∷ []) (λ e. omega arith) (not_mem-cons 1 2 [] (λ e. omega arith) not-mem-nil),
  Nodup-cons.1
      (not_mem-cons 3 2 [] (λ e. omega arith) not-mem-nil, Nodup-cons.1 (not-mem-nil, Nodup-nil)),
)

pub events-IsPlain : All IsPlainEvent events
events-IsPlain = (world-Nodup, (tt, (tt, tt)))

run-Nodup_example : Nodup (ids (run sort_trades new events).0.trades)
unfolding new
run-Nodup_example = run-Nodup sort_trades events new events-IsPlain Nodup-nil

on_trades_update-sow_example :
    let (m, effects) = on_trades_update sort_trades world new in
    Perm (map (λ r. r.trade) m.trades) world.trades
    × Pairwise (λ a b. b ≤ a) (ids m.trades)
    × (effects ≡ [])
on_trades_update-sow_example = on_trades_update-sow sort_trades world new refl

abbrev filled : BlotterModel
filled = (run sort_trades new (trades_update world ∷ [])).0
