-- ===== src/Services/Execution.antt =====
-- src/client/src/services/executionService.js: what the observer of a trade is given, from the limit
-- check to the end of the request. The times are milliseconds since the trade was subscribed to.
mod Timing
mod Report
mod Tests
use reactive_trader_cloud.Common.{
  ℕ, ◌+◌, String, Bool, true, false, not, ◌&&◌, Option, none, some, List, [], ◌∷◌, ◌++◌, leb,
  if◌then◌else◌,
}
use reactive_trader_cloud.Common.Result.{Result, throws, returns}
use reactive_trader_cloud.Services.Models.{
  CurrencyPair, Trade, ExecuteTradeRequest, ExecuteTradeResponse,
}
use reactive_trader_cloud.Services.Mappers.{TradeDto, map_from_trade_dto}
use reactive_trader_cloud.System.OpenFin.{OpenFin, Call, Answer, awaited, delegated, check_limit}

-- 2000 and 30000 milliseconds
abbrev pub execution_client_timeout_ms : ℕ
execution_client_timeout_ms = 2000

abbrev pub execution_request_timeout_ms : ℕ
execution_request_timeout_ms = 30000

unfoldable pub create_for_error : String → ExecuteTradeResponse
create_for_error error = record { trade = none; error = error; has_error = true }

unfoldable pub create_response : Trade → ExecuteTradeResponse
create_response trade = record { trade = some trade; error = ""; has_error = false }

-- The two merged streams: when the request times out, and when a slow request is reported; `none`
-- is a stream that has ended.
pub record Merged : Type 0 where
  pub request_due : Option ℕ
  pub report_due : Option ℕ

pub data Execution : Type 0 where
  checking : Execution
  refused : Execution
  requesting : Merged → Execution
  ended : Execution

-- The answer of the limit check, and what the request's stream does.
pub data Event : Type 0 where
  limit_checked : Bool → Event
  answered : TradeDto → Event
  request_failed : String → Event
  request_completed : Event

-- What the observer is given.
pub data Output : Type 0 where
  response : ExecuteTradeResponse → Output
  failed : String → Output
  completed : Output

abbrev pub timed_out : Output
unfolding create_for_error
timed_out = response (create_for_error "Trade execution timeout exceeded")

-- The merged stream ends with the last of the two.
abbrev pub settled : Merged → Execution × List Output
settled m = elim m.request_due [
  | some due ↦ (requesting m, [])
  | none ↦ elim m.report_due [ some due ↦ (requesting m, []) | none ↦ (ended, completed ∷ []) ]
]

abbrev pub is_due : Option ℕ → ℕ → Bool
is_due none now = false
is_due (some due) now = leb due now

abbrev pub reporting : Execution × List Output → Execution × List Output
reporting (e, outputs) = (e, timed_out ∷ outputs)

-- The timer of the report is due before that of the request.
unfoldable pub on_report : ℕ → Merged → Execution × List Output
on_report now m =
    if is_due m.report_due now
    then reporting (settled (record m { report_due = none }))
    else (requesting m, [])

unfoldable pub on_request_timeout : ℕ → Execution → Execution × List Output
on_request_timeout now (requesting m) =
    if is_due m.request_due now
    then reporting (settled (record m { request_due = none }))
    else (requesting m, [])
on_request_timeout now e = (e, [])

-- The timers that are due by now.
unfoldable pub advance : ℕ → Execution → Execution × List Output
unfolding on_report on_request_timeout
advance now (requesting m) =
    let (e, reported) = on_report now m in
    let (e', stopped) = on_request_timeout now e in (e', reported ++ stopped)
advance now e = (e, [])

-- `takeUntil(request)` ends the report at the first answer; an answer starts the time of the request
-- again.
module _ (get_currency_pair : String → Result CurrencyPair) where
  unfoldable pub on_answer : ℕ → TradeDto → Merged → Execution × List Output
  unfolding map_from_trade_dto create_response
  on_answer now dto m = elim m.request_due [
    | none ↦ settled (record m { report_due = none })
    | some due ↦ elim (map_from_trade_dto get_currency_pair dto) [
      | throws message ↦ (ended, failed message ∷ [])
      | returns trade ↦ (
        requesting
            (record { request_due = some (now + execution_request_timeout_ms); report_due = none }),
        response (create_response trade) ∷ [],
      )
    ]
  ]

  unfoldable pub handle : ℕ → Event → Execution → Execution × List Output
  unfolding on_answer create_for_error
  handle now (limit_checked true) checking = (
    requesting (record {
      request_due = some (now + execution_request_timeout_ms);
      report_due = some (now + execution_client_timeout_ms);
    }),
    [],
  )
  handle now (limit_checked false) checking =
      (refused, response (create_for_error "Credit limit exceeded") ∷ [])
  handle now (answered dto) (requesting m) = on_answer now dto m
  handle now (request_failed message) (requesting m) = (ended, failed message ∷ [])
  handle now request_completed (requesting m) = elim m.request_due [
    | none ↦ (requesting m, [])
    | some due ↦ settled (record m { request_due = none })
  ]
  handle now event e = (e, [])

  -- The events with their times, to the time at which the observer stops to listen.
  unfoldable pub run : Execution → List (ℕ × Event) → ℕ → List Output
  unfolding advance handle
  run e [] end = (advance end e).1
  run e ((now, event) ∷ events) end =
      let (e', due) = advance now e in
      let (e'', outputs) = handle now event e' in due ++ (outputs ++ run e'' events end)

  -- Without a limit checker the check is answered at once.
  unfoldable pub execute_trade :
      ExecuteTradeRequest → OpenFin → List (ℕ × Event) → ℕ → OpenFin × List Call × List Output
  unfolding check_limit run
  execute_trade request o events end =
      let (o', calls, answer) =
        check_limit request.spot_rate request.notional request.currency_pair o in
      elim answer [
        | delegated ↦ (o', calls, run checking ((0, limit_checked true) ∷ events) end)
        | awaited topic ↦ (o', calls, run checking events end)
      ]
