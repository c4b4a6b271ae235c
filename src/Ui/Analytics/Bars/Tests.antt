-- ===== src/Ui/Analytics/Bars/Tests.antt =====
-- The percentages of the charts at concrete profits, and their theorems there.
use reactive_trader_cloud.Common.{◌≡◌, refl, String, none, some, List, [], ◌∷◌}
use reactive_trader_cloud.Common.Int.{ℤ, pos, negsuc, max_ℤ, min_ℤ}
use reactive_trader_cloud.Services.Models.{CurrencyPairPosition, HistoricPosition}
use reactive_trader_cloud.Ui.Analytics.Bars.{pointers}

abbrev plain : ℤ → String
plain p = ""

abbrev history : List HistoricPosition
history =
    record { timestamp = "1"; usd_pnl = some (pos 30) }
    ∷ record { timestamp = "2"; usd_pnl = some (negsuc 9) }
    ∷ []

abbrev holding : ℤ → CurrencyPairPosition
holding p = record {
  symbol = "EURUSD";
  base_pnl = p;
  base_traded_amount = pos 1;
  currency_pair = record {
    symbol = "EURUSD";
    rate_precision = 5;
    pips_position = 4;
    base = "EUR";
    terms = "USD";
    display_string = "EUR / USD";
  };
}

abbrev positions : List CurrencyPairPosition
positions = holding (pos 5) ∷ holding (negsuc 9) ∷ []

pointers-positions :
    pointers positions
    ≡ some (record { numerator = pos 750; denominator = 10 })
      ∷ some (record { numerator = pos 0; denominator = 10 })
      ∷ []
unfolding pointers max_ℤ min_ℤ
pointers-positions = refl

pointers-zero : pointers (holding (pos 0) ∷ []) ≡ none ∷ []
unfolding pointers
pointers-zero = refl
