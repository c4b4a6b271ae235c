-- ===== src/Ui/Analytics/Bubbles/Tests.antt =====
-- The bubble chart on concrete positions, and its theorems there.
use reactive_trader_cloud.Common.{ℕ, ◌≡◌, refl, String, Option, some, List, [], ◌∷◌}
use reactive_trader_cloud.Common.Int.{ℤ, pos, negsuc, ◌+ℤ◌}
use reactive_trader_cloud.Services.Models.{CurrencyPairPosition}
use reactive_trader_cloud.Ui.Analytics.Positions.{Position, Domain, get_positions_data_from_series}
use reactive_trader_cloud.Ui.Analytics.Positions.Totals.{
  amount, amount-get_positions_data_from_series,
}
use reactive_trader_cloud.Ui.Analytics.Bubbles.{receive_all, receive_props, mounted}
use reactive_trader_cloud.Ui.Analytics.Bubbles.Nodes.{labels, node_labels, receive_all-labels}

abbrev holding : String → String → ℤ → CurrencyPairPosition
holding base terms a = record {
  symbol = "";
  base_pnl = pos 0;
  base_traded_amount = a;
  currency_pair = record {
    symbol = "";
    rate_precision = 5;
    pips_position = 4;
    base = base;
    terms = terms;
    display_string = "";
  };
}

abbrev series : List CurrencyPairPosition
series =
    holding "EUR" "USD" (pos 3)
    ∷ holding "GBP" "USD" (pos 2)
    ∷ holding "EUR" "JPY" (negsuc 6)
    ∷ holding "GBP" "JPY" (negsuc 1)
    ∷ []

abbrev shown : List Position
shown = record { symbol = "EUR"; base_traded_amount = negsuc 3 } ∷ []

-- The pounds cancel.
positions-series : get_positions_data_from_series series ≡ shown
unfolding get_positions_data_from_series ◌+ℤ◌
positions-series = refl

abbrev diameter : Option Domain → ℕ → ℕ
diameter d a = a

abbrev column : ℕ → ℕ → ℕ
column n i = i

amount-get_positions_data_from_series_example :
    amount "EUR" (get_positions_data_from_series series) ≡ some (negsuc 3)
unfolding ◌+ℤ◌
amount-get_positions_data_from_series_example = amount-get_positions_data_from_series "EUR" series

receive_all-labels_example :
    node_labels
      (receive_props diameter column series (
        receive_all diameter column
          ((holding "GBP" "USD" (pos 2) ∷ []) ∷ [])
          (mounted {Place = ℕ} []))).0.nodes
    ≡ labels (get_positions_data_from_series series)
receive_all-labels_example =
    receive_all-labels ℕ diameter column [] ((holding "GBP" "USD" (pos 2) ∷ []) ∷ []) series
