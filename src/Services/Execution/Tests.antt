-- ===== src/Services/Execution/Tests.antt =====
-- The execution of a trade on concrete runs, and its theorems there.
use reactive_trader_cloud.Common.{ℕ, true, false, List, [], ◌∷◌, ◌≡◌, refl, arith}
use reactive_trader_cloud.Common.Result.{returns}
use reactive_trader_cloud.Services.Mappers.{map_from_trade_dto}
use reactive_trader_cloud.Services.Mappers.Tests.{pairs, trade, trade_dto}
use reactive_trader_cloud.Services.Execution.{
  Event, limit_checked, answered, request_failed, request_completed, response, completed, timed_out,
  create_response, create_for_error, checking, run,
}
use reactive_trader_cloud.Services.Execution.Timing.{outputs_of, run-answered}
use reactive_trader_cloud.Services.Execution.Report.{speaks, run-reported}

abbrev slow : List (ℕ × Event)
slow = (100, limit_checked true) ∷ (2500, answered trade_dto) ∷ (2500, request_completed) ∷ []

mapped : map_from_trade_dto pairs trade_dto ≡ returns trade
unfolding map_from_trade_dto
mapped = refl

run-slow :
    run pairs checking slow 9000 ≡ timed_out ∷ response (create_response trade) ∷ completed ∷ []
unfolding run
run-slow = refl

run-over_limit :
    run pairs checking ((100, limit_checked false) ∷ []) 90000
    ≡ response (create_for_error "Credit limit exceeded") ∷ []
unfolding run
run-over_limit = refl

run-answered_example : run pairs checking slow 9000 ≡ outputs_of 100 2500 trade
run-answered_example = run-answered pairs 100 2500 9000 trade_dto trade mapped

run-reported_example :
    speaks (run pairs checking ((100, limit_checked true) ∷ (300, request_failed "down") ∷ []) 9000)
    ≡ true
run-reported_example = run-reported pairs 100 9000 ((300, request_failed "down") ∷ []) (omega arith)
