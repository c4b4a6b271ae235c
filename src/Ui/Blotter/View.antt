-- ===== src/Ui/Blotter/View.antt =====
-- src/client/src/ui/blotter/views/blotterView.jsx: the classes of the table and its rows, and the cells
-- of a row. Dates and notionals come formatted.
use reactive_trader_cloud.Common.{
  ℕ, ◌≡◌, refl, String, Bool, true, false, not, Option, none, some, List, [], ◌∷◌, ◌<>◌, ◌===◌, any,
  arith,
}
use reactive_trader_cloud.Services.Models.Decimals.{Decimal}
use reactive_trader_cloud.Services.Models.{
  TradeStatus, pending, done, rejected, Direction, buy, sell, TradeRow,
}
use reactive_trader_cloud.Services.Mappers.{trade_status_name}
use reactive_trader_cloud.Ui.Classes.{class_names}
use reactive_trader_cloud.Ui.Blotter.{BlotterModel}

-- The names of the statuses in lower case, and those of the directions in upper case.
abbrev pub lower_name : TradeStatus → String
lower_name pending = "pending"
lower_name done = "done"
lower_name rejected = "rejected"

abbrev pub upper_name : Direction → String
upper_name buy = "BUY"
upper_name sell = "SELL"

abbrev pub is_set : Option Bool → Bool
is_set none = false
is_set (some b) = b

unfoldable pub row_class : TradeRow → List String
row_class row = class_names (
    ("blotter__trade", true)
    ∷ ("blotter__trade--new", is_set row.is_new)
    ∷ ("blotter__trade--highlighted", is_set row.is_in_focus)
    ∷ ("blotter__trade--rejected", lower_name row.trade.status === "rejected")
    ∷ ("blotter__trade--processing", lower_name row.trade.status === "processing")
    ∷ [])

unfoldable pub blotter_class : BlotterModel → List String
blotter_class m = class_names (
    ("blotter", true)
    ∷ ("blotter--online", m.is_connected)
    ∷ ("blotter--offline", not m.is_connected)
    ∷ [])

-- `format_date` is given the format, and `format_notional` the notional.
pub record CellFormats : Type 0 where
  pub format_date : String → String → String
  pub format_notional : ℕ → String
  pub format_number : ℕ → String
  pub format_rate : Decimal → String

module _ (formats : CellFormats) where
  -- The texts of a row in the order of the columns.
  unfoldable pub cells : TradeRow → List String
  cells row =
      let t = row.trade in
      formats.format_number t.trade_id
      ∷ formats.format_date "%e-%b %H:%M:%S" t.trade_date
      ∷ upper_name t.direction
      ∷ t.currency_pair.symbol
      ∷ (formats.format_notional t.notional <> (" " <> t.currency_pair.base))
      ∷ formats.format_rate t.spot_rate
      ∷ trade_status_name t.status
      ∷ ("SP. " <> formats.format_date "%d %b" t.value_date)
      ∷ t.trader_name
      ∷ []

never_by_status : (s : TradeStatus) → (lower_name s === "processing") ≡ false
never_by_status pending = refl
never_by_status done = refl
never_by_status rejected = refl

-- No row has the class of a trade that is processed.
row_class-processing :
    (row : TradeRow) → any (λ c. c === "blotter__trade--processing") (row_class row) ≡ false
unfolding row_class any
row_class-processing row = ground (arith, never_by_status row.trade.status)
