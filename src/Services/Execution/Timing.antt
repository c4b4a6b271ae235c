-- ===== src/Services/Execution/Timing.antt =====
-- What the observer of a trade sees, by the time at which the request is answered.
use reactive_trader_cloud.Common.{
  ℕ, ◌+◌, String, true, List, [], ◌∷◌, ◌++◌, ◌≡◌, leb, ltb, if◌then◌else◌, arith,
}
use reactive_trader_cloud.Common.Result.{Result, returns}
use reactive_trader_cloud.Services.Models.{CurrencyPair, Trade}
use reactive_trader_cloud.Services.Mappers.{TradeDto, map_from_trade_dto}
use reactive_trader_cloud.Services.Execution.{
  checking, limit_checked, answered, request_completed, Output, response, completed, timed_out,
  create_response, on_report, on_request_timeout, advance, on_answer, handle, run,
}

-- The report of a slow request, if the time comes.
abbrev pub report : ℕ → ℕ → List Output
report checked now = if leb (checked + 2000) now then timed_out ∷ [] else []

-- What the observer of an accepted trade is given for a request that is answered once.
abbrev pub outputs_of : ℕ → ℕ → Trade → List Output
outputs_of checked at trade =
    if ltb at (checked + 30000)
    then report checked at ++ response (create_response trade) ∷ completed ∷ []
    else timed_out ∷ timed_out ∷ completed ∷ []

module _ (get_currency_pair : String → Result CurrencyPair) where
  -- A trade whose limit check passes and whose request is answered once, with a trade that can be mapped:
  -- within thirty seconds of the check the observer is given the trade and the end, and before them
  -- one timeout error if two seconds have passed; later it is given two timeout errors and the end.
  pub run-answered :
      (checked at end : ℕ) (dto : TradeDto) (trade : Trade)
      → map_from_trade_dto get_currency_pair dto ≡ returns trade
      → run get_currency_pair checking
          ((checked, limit_checked true) ∷ (at, answered dto) ∷ (at, request_completed) ∷ [])
          end
        ≡ outputs_of checked at trade
  unfolding run advance handle on_report on_request_timeout on_answer
  run-answered checked at end dto trade e = ground arith

  -- A request that is never answered: a timeout error after two seconds, another after thirty, then
  -- the end.
  pub run-silent :
      (checked end : ℕ)
      → run get_currency_pair checking ((checked, limit_checked true) ∷ []) end
        ≡ report checked end
          ++ (if leb (checked + 30000) end then timed_out ∷ completed ∷ [] else [])
  unfolding run advance handle on_report on_request_timeout
  run-silent checked end = ground arith
