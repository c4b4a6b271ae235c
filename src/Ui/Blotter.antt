-- ===== src/Ui/Blotter.antt =====
-- src/client/src/ui/blotter/model/blotterModel.js. An event is one that the router delivers, a
-- request for the blotter's data, or a value of a stream that the model subscribed to.
mod Account
mod Stream
mod View
pub mod Ids
pub mod Updates
mod Tests
use mathlib.Core.List.{Perm, Pairwise}
use reactive_trader_cloud.Common.{
  ℕ, ◌≤◌, String, Bool, true, false, Option, none, some, List, [], ◌∷◌, ◌++◌, map, reverse,
  if◌then◌else◌, ◌==◌, ◌||◌,
}
use reactive_trader_cloud.Services.Models.{
  TradeStatus, done, rejected, pending, Trade, TradesUpdate, TradeRow,
}
use reactive_trader_cloud.Ui.Arrays.{find_index, modify_at}

-- lodash's `_.sortBy(trades, 'tradeId')`
pub record SortTrades : Type 0 where
  pub sort_by_trade_id : List Trade → List Trade
  pub ascending :
      (ts : List Trade) → Pairwise (λ a b. a.trade_id ≤ b.trade_id) (sort_by_trade_id ts)
  pub same_trades : (ts : List Trade) → Perm (sort_by_trade_id ts) ts

pub record BlotterModel : Type 0 where
  pub trades : List TradeRow
  pub is_connected : Bool

pub data Event : Type 0 where
  init reference_data_loaded tear_off_blotter : Event
  highlight_trade_row end_highlight_trade_row : Trade → Event
  fetch_blotter : String → Event
  trades_update : TradesUpdate → Event
  service_status : Bool → Event

pub data Effect : Type 0 where
  subscribe_to_connection_status init_region subscribe_to_fetch_blotter : Effect
  subscribe_to_trade_stream popout : Effect
  schedule_end_highlight : ℕ → Trade → Effect
  send_all_blotter_data : String → List Trade → Effect
  open_trade_notification : Trade → Effect

unfoldable pub new : BlotterModel
new = record { trades = []; is_connected = false }

unfoldable pub new_trade_row : Trade → TradeRow
new_trade_row trade = record { trade = trade; is_new = none; is_in_focus = none }

abbrev highlight_trade_for : ℕ
highlight_trade_for = 200

abbrev pub has_id : ℕ → TradeRow → Bool
has_id id row = row.trade.trade_id == id

unfoldable pub on_highlight_trade_row : Trade → BlotterModel → BlotterModel × List Effect
unfolding find_index modify_at
on_highlight_trade_row trade m = elim (find_index (has_id trade.trade_id) m.trades) [
  | some i ↦ (
    record m { trades = modify_at i (λ row. record row { is_in_focus = some true }) m.trades },
    schedule_end_highlight highlight_trade_for trade ∷ [],
  )
  | none ↦ (m, [])
]

unfoldable pub on_end_highlight_trade_row : Trade → BlotterModel → BlotterModel
unfolding find_index modify_at
on_end_highlight_trade_row trade m = elim (find_index (has_id trade.trade_id) m.trades) [
  | some i ↦ record m {
    trades = modify_at i (λ row. record row { is_in_focus = some false }) m.trades;
  }
  | none ↦ m
]

abbrev pub is_final : Trade → Bool
is_final trade = elim trade.status [ pending ↦ false | done ↦ true | rejected ↦ true ]

-- One round of the loop over the trades of an update: the rows, and the notifications.
unfoldable pub apply_trade : Trade → List TradeRow → List TradeRow
unfolding find_index modify_at new_trade_row
apply_trade trade rows = elim (find_index (has_id trade.trade_id) rows) [
  | some i ↦ modify_at i (λ row. new_trade_row trade) rows
  | none ↦ record (new_trade_row trade) { is_new = some true } ∷ rows
]

unfoldable pub notify : Trade → List Effect
notify trade = if is_final trade then open_trade_notification trade ∷ [] else []

unfoldable pub apply_trades : List Trade → List TradeRow → List TradeRow × List Effect
unfolding apply_trade notify
apply_trades [] rows = (rows, [])
apply_trades (trade ∷ trades) rows =
    let (rows', effects) = apply_trades trades (apply_trade trade rows) in
    (rows', notify trade ++ effects)

unfoldable pub on_service_status : Bool → BlotterModel → BlotterModel
on_service_status connected m = record {
  trades = if connected then m.trades else [];
  is_connected = connected;
}

module _ (lodash : SortTrades) where
  unfoldable pub on_trades_update : TradesUpdate → BlotterModel → BlotterModel × List Effect
  unfolding apply_trades new_trade_row
  on_trades_update u m =
      if u.is_state_of_the_world
      then (
        record m { trades = map new_trade_row (reverse (lodash.sort_by_trade_id u.trades)) },
        [],
      )
      else (let (rows, effects) = apply_trades u.trades m.trades in
          (record m { trades = rows }, effects))

  unfoldable pub step : Event → BlotterModel → BlotterModel × List Effect
  unfolding on_trades_update on_highlight_trade_row on_end_highlight_trade_row on_service_status
  step init m = (m, subscribe_to_connection_status ∷ init_region ∷ subscribe_to_fetch_blotter ∷ [])
  step reference_data_loaded m = (m, subscribe_to_trade_stream ∷ [])
  step tear_off_blotter m = (m, popout ∷ [])
  step (highlight_trade_row trade) m = on_highlight_trade_row trade m
  step (end_highlight_trade_row trade) m = (on_end_highlight_trade_row trade m, [])
  step (fetch_blotter uuid) m = (m, send_all_blotter_data uuid (map (λ r. r.trade) m.trades) ∷ [])
  step (trades_update u) m = on_trades_update u m
  step (service_status connected) m = (on_service_status connected m, [])

  unfoldable pub run : BlotterModel → List Event → BlotterModel × List Effect
  unfolding step
  run m [] = (m, [])
  run m (event ∷ events) =
      let (m', effects) = step event m in let (m'', rest) = run m' events in (m'', effects ++ rest)
