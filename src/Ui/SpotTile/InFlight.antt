-- ===== src/Ui/SpotTile/InFlight.antt =====
-- Trades in flight.
use reactive_trader_cloud.Common.{
  ℕ, ◌+◌, ◌≤◌, ◌≡◌, ◌∙◌, eq_iff, Bool, true, false, ◌&&◌, List, [], ◌∷◌, ◌++◌, arith, All, String,
  ◌===◌,
}
use reactive_trader_cloud.Common.Int.{ℤ}
use reactive_trader_cloud.Common.Result.{returns}
use reactive_trader_cloud.Ui.SpotTile.{
  Formats, unsubscribed, trading, closing, execution_error, close_position, execution_next,
  SpotTileModel, Event, Effect, send_execution, step, run, on_execute_trade, on_close_position,
  on_execution_next, on_trade_response, on_execution_error, on_price_next, on_price_silent,
  on_statuses, create_trade_request,
}
use reactive_trader_cloud.Ui.SpotTile.Runs.{run-cons, run_inv}

abbrev pub count_flag : Bool → ℕ
count_flag true = 1
count_flag false = 0

-- The requests that are sent to the execution service.
abbrev pub sent : List Effect → ℕ
sent [] = 0
sent (send_execution request ∷ effects) = 1 + sent effects
sent (_ ∷ effects) = sent effects

-- The outcomes that arrive, and the requests to close a position.
abbrev pub outcomes : List Event → ℕ
outcomes [] = 0
outcomes (execution_next response ∷ events) = 1 + outcomes events
outcomes (execution_error ∷ events) = 1 + outcomes events
outcomes (close_position symbol amount uuid correlation ∷ events) = 1 + outcomes events
outcomes (_ ∷ events) = outcomes events

sent-append : (xs ys : List Effect) → sent (xs ++ ys) ≡ sent xs + sent ys
sent-append [] ys = omega arith
sent-append (x ∷ xs) ys = ground (arith, sent-append xs ys)

-- The outcome of a trade, as the event of its stream.
abbrev pub is_outcome : Event → Bool
is_outcome (execution_next response) = true
is_outcome execution_error = true
is_outcome _ = false

-- A trade is in flight and its subscription is gone.
abbrev is_stuck : SpotTileModel → Bool
is_stuck m =
    m.is_trade_execution_in_flight
    && elim m.execution [ trading ↦ false | unsubscribed ↦ true | closing uuid correlation ↦ true ]

module _ (formats : Formats) where
  step-sent :
      (event : Event) (events : List Event) (m : SpotTileModel) (n : SpotTileModel)
      (now : List Effect)
      → step formats event m ≡ returns (n, now)
      → sent now + count_flag m.is_trade_execution_in_flight + outcomes events
        ≤ outcomes (event ∷ events) + count_flag n.is_trade_execution_in_flight
  unfolding step on_execute_trade on_close_position on_execution_next on_trade_response
      on_execution_error on_price_next on_price_silent on_statuses create_trade_request
  step-sent event events m n now h = ground arith

  -- Over any events that are handled without an error, the requests sent for execution, with one
  -- if a trade is in flight before, are at most the outcomes that arrive and the requests to
  -- close a position, with one if a trade is in flight afterwards.
  pub sent-run :
      (events : List Event) (m : SpotTileModel) (m' : SpotTileModel) (effects : List Effect)
      → run formats m events ≡ returns (m', effects)
      → sent effects + count_flag m.is_trade_execution_in_flight
        ≤ outcomes events + count_flag m'.is_trade_execution_in_flight
  unfolding run
  sent-run [] m m' effects h = ground arith
  sent-run (event ∷ events) m m' effects h =
      let (n, now, later, e, f, g) = run-cons formats event events m m' effects h in
      let first = step-sent event events m n now e in
      let rest = sent-run events n m' later f in rw g (omega (arith, sent-append now later))

  step-frozen :
      (event : Event) (m : SpotTileModel) (n : SpotTileModel) (now : List Effect)
      → step formats event m ≡ returns (n, now)
      → is_outcome event ≡ false
      → m.is_trade_execution_in_flight ≡ true
      → (n.is_trade_execution_in_flight ≡ true) × (n.current_spot_price ≡ m.current_spot_price)
  unfolding step on_execute_trade on_close_position on_price_next on_price_silent on_statuses
      create_trade_request
  step-frozen event m n now h k f = (ground arith, ground arith)

  -- While a trade is in flight, any events that are no outcome of an execution and are handled
  -- without an error leave it in flight and leave the shown price as it is.
  pub run-frozen :
      (events : List Event) (m : SpotTileModel) (m' : SpotTileModel) (effects : List Effect)
      → run formats m events ≡ returns (m', effects)
      → All (λ e. is_outcome e ≡ false) events
      → m.is_trade_execution_in_flight ≡ true
      → (m'.is_trade_execution_in_flight ≡ true) × (m'.current_spot_price ≡ m.current_spot_price)
  unfolding run
  run-frozen [] m m' effects h k f = (ground arith, ground arith)
  run-frozen (event ∷ events) m m' effects h k f =
      let (n, now, later, e, r, g) = run-cons formats event events m m' effects h in
      let (up, kept) = step-frozen event m n now e k.0 f in
      let (up', kept') = run-frozen events n m' later r k.1 up in (up', kept' ∙ kept)

  step-stuck :
      (event : Event) (m : SpotTileModel) (n : SpotTileModel) (now : List Effect)
      → step formats event m ≡ returns (n, now)
      → is_stuck m ≡ true
      → is_stuck n ≡ true
  unfolding step on_execute_trade on_close_position on_execution_next on_trade_response
      on_execution_error on_price_next on_price_silent on_statuses create_trade_request
  step-stuck event m n now h k = ground arith

  -- If a trade is in flight and a request arrives to close a position in the pair of the tile,
  -- then whatever events follow, as long as they are handled without an error, a trade is said to
  -- be in flight for ever.
  pub run-stuck :
      (symbol : String) (amount : ℤ) (uuid correlation : String) (events : List Event)
      (m : SpotTileModel) (m' : SpotTileModel) (effects : List Effect)
      → run formats m (close_position symbol amount uuid correlation ∷ events)
        ≡ returns (m', effects)
      → symbol ≡ m.currency_pair.symbol
      → m.is_trade_execution_in_flight ≡ true
      → m'.is_trade_execution_in_flight ≡ true
  unfolding step on_close_position create_trade_request
  run-stuck symbol amount uuid correlation events m m' effects h s k =
      let same : (symbol === m.currency_pair.symbol) ≡ true =
        (eq_iff symbol m.currency_pair.symbol).1 s in
      let (n, now, later, e, f, g) =
        run-cons formats (close_position symbol amount uuid correlation) events m m' effects h in
      let lost : is_stuck n ≡ true = ground arith in
      let kept : is_stuck m' ≡ true =
        run_inv formats (λ x. is_stuck x ≡ true) step-stuck events n m' later f lost in
      ground arith
