-- ===== src/Ui/Analytics/Model/Tests.antt =====
-- The analytics model on concrete messages, and its theorem there.
use reactive_trader_cloud.Common.{◌≡◌, refl, String, true, none, [], ◌∷◌, map}
use reactive_trader_cloud.Common.Int.{ℤ, pos, negsuc}
use reactive_trader_cloud.Common.Result.{throws}
use reactive_trader_cloud.Services.Mappers.{PositionsDto, map_positions_from_dto}
use reactive_trader_cloud.Services.Mappers.Tests.{pairs}
use reactive_trader_cloud.System.OpenFin.{OpenFin, publish_positions}
use reactive_trader_cloud.Ui.Analytics.Model.{
  AnalyticsModel, open_fin, message, reference_data_loaded, created, run,
}
use reactive_trader_cloud.Ui.Analytics.Model.Published.{IsMappable, published-run}

abbrev plain : ℤ → String
plain p = ""

abbrev container : OpenFin
container = record {
  is_running_in_open_fin = true;
  limit_check_subscriber = none;
  limit_check_id = 1;
}

abbrev first : PositionsDto
first = record {
  current_positions =
      record { symbol = "EURUSD"; base_pnl = pos 4; base_traded_amount = negsuc 9 } ∷ [];
  history = [];
}

abbrev listening : AnalyticsModel
unfolding created run
listening = (run pairs plain container created (reference_data_loaded ∷ [])).0

-- A pair that is not known ends the stream: the next message is not heard.
unknown_pair :
    (run (λ s. throws "no pair") plain container listening (message first ∷ message first ∷ [])).1
    ≡ []
unfolding run listening
unknown_pair = refl

first-IsMappable : IsMappable pairs first
unfolding map_positions_from_dto
first-IsMappable = (_, refl)

published-run_example :
    (run pairs plain container listening (map message (first ∷ first ∷ []))).1
    ≡ open_fin (publish_positions first.current_positions ∷ [])
      ∷ open_fin (publish_positions first.current_positions ∷ [])
      ∷ []
unfolding listening run
published-run_example =
    published-run pairs plain container refl listening (first ∷ first ∷ []) refl
      (first-IsMappable, (first-IsMappable, tt))
