-- ===== src/System/OpenFin/Tests.antt =====
-- The limit checks on a concrete history, and their theorem there.
use mathlib.Core.List.{Nodup}
use reactive_trader_cloud.Common.{true, some, none, List, [], ◌∷◌, ◌≡◌, refl}
use reactive_trader_cloud.Services.Models.Decimals.{Decimal}
use reactive_trader_cloud.System.OpenFin.{
  awaited, Event, subscribed, unsubscribed, checked, disposed, created, run, unsubscribe, subscribe,
  send,
}
use reactive_trader_cloud.System.OpenFin.Topics.{asked, asked-run-Nodup}

abbrev price : Decimal
price = record { mantissa = 107451; scale = 5 }

abbrev history : List Event
history =
    checked price 1000 "EURUSD"
    ∷ subscribed "limits" "request-limit-check"
    ∷ checked price 1000 "EURUSD"
    ∷ checked price 2000 "EURUSD"
    ∷ []

-- The first check has no checker; the ids that are sent are those of the next topics.
run-history :
    (run (created true) history).1
    ≡ subscribe (some "limits") (record { number = 1 })
      ∷ send (some "limits") (record {
        id = 2;
        response_topic = record { number = 1 };
        traded_currency_pair = "EURUSD";
        notional = 1000;
        rate = price;
      })
      ∷ subscribe (some "limits") (record { number = 2 })
      ∷ send (some "limits") (record {
        id = 3;
        response_topic = record { number = 2 };
        traded_currency_pair = "EURUSD";
        notional = 2000;
        rate = price;
      })
      ∷ []
unfolding run
run-history = refl

-- A checker that has left is not unsubscribed from.
run-left :
    (run
      (record {
        is_running_in_open_fin = true;
        limit_check_subscriber = some "limits";
        limit_check_id = 4;
      })
      (unsubscribed "limits" "request-limit-check"
        ∷ disposed (awaited (record { number = 3 }))
        ∷ [])).1
    ≡ unsubscribe none (record { number = 3 }) ∷ []
unfolding run
run-left = refl

asked-run-Nodup_example : Nodup (asked (run (created true) history).1)
asked-run-Nodup_example = asked-run-Nodup true history
