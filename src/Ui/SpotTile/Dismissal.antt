-- ===== src/Ui/SpotTile/Dismissal.antt =====
-- The start of a tile and the timer that dismisses the notification of a done trade: `_onInit` and
-- `_onExecuteTrade` of src/client/src/ui/spotTile/model/spotTileModel.js.
mod Tests
use reactive_trader_cloud.Common.{
  ℕ, ◌≡◌, ◌⊎◌, refl, sym, ap, ◌∙◌, subst, String, Bool, true, false, not, Option, none, some, List,
  [], ◌∷◌, ◌++◌, if◌then◌else◌, any, ◌||◌, Bool-cases, inl, inr, arith,
}
use reactive_trader_cloud.Common.Result.{Result, returns, throws, ◌>>=◌, Result-cases}
use reactive_trader_cloud.Services.Models.{
  ExecuteTradeResponse, Trade, pending, done, rejected, Direction, SpotPrice,
}
use reactive_trader_cloud.Ui.Popouts.{PopoutService}
use reactive_trader_cloud.Ui.SpotTile.{
  Formats, SpotTileModel, Event, Effect, Notification, text, trade_execution, Execution, trading,
  trade_notification_dismissed, execution_next, schedule_dismissal, remove_from_region, popout,
  undock_popout, display_chart, send_execution, publish_price, send_position_closed,
  send_close_failed, step, on_execute_trade, on_close_position, on_price_next, on_price_silent,
  on_statuses, on_execution_error, create_trade_request, create_for_error, close_position, statuses,
  tile_closed, pop_out_tile, undock_tile, display_currency_chart, chart_settled, price_silent,
  execution_error, notional_changed, execute_trade, price_next, on_execution_next,
  on_trade_response, create_for_success, pricing_down_status,
}

pub data SetUp : Type 0 where
  subscribe_to_price_stream subscribe_to_connection_status : SetUp
  subscribe_to_close_position_requests init_region : SetUp

-- `_onInit`. The argument of `getPopoutService` is a field that does not exist, which throws unless the
-- service has been made before.
unfoldable pub on_init : Option PopoutService → Result (List SetUp)
on_init none = throws "Cannot read property 'isRunningInOpenFin' of undefined"
on_init (some service) = returns (
    subscribe_to_price_stream ∷ subscribe_to_connection_status
    ∷ subscribe_to_close_position_requests ∷ init_region ∷ [])

-- The tile with what its timer disposable holds: a timer that runs, or nothing that matters.
pub record TimedTile : Type 0 where
  pub model : SpotTileModel
  pub is_timing : Bool

pub data TimedEvent : Type 0 where
  tile : Event → TimedEvent
  elapsed : TimedEvent

abbrev pub schedules : Effect → Bool
schedules (schedule_dismissal after) = true
schedules _ = false

module _ (formats : Formats) where
  -- A timer that is set replaces the one before; one that has elapsed publishes the event.
  unfoldable pub timed_step : TimedTile → TimedEvent → Result (TimedTile × List Effect)
  unfolding step any
  timed_step t (tile event) = do
    now ← step formats event t.model
    returns (
      record { model = now.0; is_timing = if any schedules now.1 then true else t.is_timing },
      now.1,
    )
  timed_step t elapsed =
      if t.is_timing
      then (do
        now ← step formats trade_notification_dismissed t.model
        returns (record { model = now.0; is_timing = false }, now.1))
      else returns (t, [])

  unfoldable pub timed_run : TimedTile → List TimedEvent → Result (TimedTile × List Effect)
  unfolding timed_step
  timed_run t [] = returns (t, [])
  timed_run t (event ∷ events) = do
    now ← timed_step t event
    later ← timed_run now.0 events
    returns (later.0, now.1 ++ later.1)

abbrev pub is_done_shown : Option Notification → Bool
is_done_shown (some (trade_execution n)) = elim n.details [
  | none ↦ false
  | some d ↦ elim d.status [ done ↦ true | pending ↦ false | rejected ↦ false ]
]
is_done_shown _ = false

down-is_done :
    (connected stale : Bool) (n : Option Notification)
    → is_done_shown (pricing_down_status connected stale n) ≡ is_done_shown n
unfolding pricing_down_status
down-is_done true true none = refl
down-is_done true false none = refl
down-is_done false stale none = refl
down-is_done true true (some (text s)) = refl
down-is_done true false (some (text s)) = refl
down-is_done false stale (some (text s)) = refl
down-is_done connected stale (some (trade_execution t)) = refl

-- If a done trade is shown after a handler, it was shown before or its dismissal is scheduled.
abbrev IsAnswered : SpotTileModel → SpotTileModel → List Effect → Type 0
IsAnswered m n now =
    is_done_shown n.notification ≡ true → (any schedules now || is_done_shown m.notification) ≡ true

execute-IsAnswered :
    (d : Direction) (m : SpotTileModel) (n : SpotTileModel) (now : List Effect)
    → on_execute_trade d m ≡ returns (n, now)
    → IsAnswered m n now
unfolding on_execute_trade create_trade_request any
execute-IsAnswered d m n now h k = ground arith

response-IsAnswered :
    (formats : Formats) (r : ExecuteTradeResponse) (m : SpotTileModel) (n : SpotTileModel)
    (now : List Effect)
    → on_trade_response formats r m ≡ returns (n, now)
    → IsAnswered m n now
unfolding on_trade_response create_for_success create_for_error any
response-IsAnswered formats r m n now h k = ground arith

price-IsAnswered :
    (p : SpotPrice) (m : SpotTileModel) → IsAnswered m (on_price_next p m).0 (on_price_next p m).1
unfolding on_price_next any
price-IsAnswered p m k = ground (arith, down-is_done m.pricing_connected false m.notification)

-- If a done trade is shown, its timer runs.
abbrev pub is_timed : TimedTile → Bool
is_timed t = not (is_done_shown t.model.notification) || t.is_timing

module _ (formats : Formats) where
  step-IsAnswered :
      (event : Event) (m : SpotTileModel) (n : SpotTileModel) (now : List Effect)
      → step formats event m ≡ returns (n, now)
      → IsAnswered m n now
  unfolding step on_close_position on_execution_next on_execution_error on_price_silent on_statuses
      create_trade_request create_for_error any
  step-IsAnswered tile_closed m n now h k = ground arith
  step-IsAnswered pop_out_tile m n now h k = ground arith
  step-IsAnswered undock_tile m n now h k = ground arith
  step-IsAnswered display_currency_chart m n now h k = ground arith
  step-IsAnswered chart_settled m n now h k = ground arith
  step-IsAnswered trade_notification_dismissed m n now h k =
      ground (arith, down-is_done m.pricing_connected m.price_stale none)
  step-IsAnswered price_silent m n now h k =
      ground (arith, down-is_done m.pricing_connected true m.notification)
  step-IsAnswered execution_error m n now h k = ground arith
  step-IsAnswered (notional_changed notional) m n now h k = ground arith
  step-IsAnswered (execute_trade d) m n now h k = execute-IsAnswered d m n now h k
  step-IsAnswered (close_position s a u c) m n now h k = ground arith
  step-IsAnswered (execution_next r) m n now h k =
      ground (arith, response-IsAnswered formats r m n now)
  step-IsAnswered (price_next p) m n now h k = ground (arith, price-IsAnswered p m)
  step-IsAnswered (statuses p e) m n now h k =
      ground (arith, down-is_done p m.price_stale m.notification)

  tile-is_timed :
      (event : Event) (t : TimedTile) (t' : TimedTile) (effects : List Effect)
      → timed_step formats t (tile event) ≡ returns (t', effects)
      → is_timed t ≡ true
      → is_timed t' ≡ true
  unfolding timed_step
  tile-is_timed event t t' effects h p = elim (Result-cases (step formats event t.model)) [
    | inl ((n, now), e) ↦ ground (arith, step-IsAnswered event t.model n now e)
    | inr (x, e) ↦ absurd (ground arith)
  ]

  elapsed-is_timed :
      (t : TimedTile) (t' : TimedTile) (effects : List Effect)
      → timed_step formats t elapsed ≡ returns (t', effects)
      → is_timed t ≡ true
      → is_timed t' ≡ true
  unfolding timed_step step
  elapsed-is_timed t t' effects h p =
      ground (arith, down-is_done t.model.pricing_connected t.model.price_stale none)

  timed_step-is_timed :
      (event : TimedEvent) (t : TimedTile) (t' : TimedTile) (effects : List Effect)
      → timed_step formats t event ≡ returns (t', effects)
      → is_timed t ≡ true
      → is_timed t' ≡ true
  timed_step-is_timed (tile event) t t' effects h p = tile-is_timed event t t' effects h p
  timed_step-is_timed elapsed t t' effects h p = elapsed-is_timed t t' effects h p

  -- From a tile where that is so, after any events of the tile and its timer that are handled without an
  -- error: if the notification of a done trade is shown, a timer that dismisses it is running.
  pub timed_run-is_timed :
      (events : List TimedEvent) (t : TimedTile) (t' : TimedTile) (effects : List Effect)
      → timed_run formats t events ≡ returns (t', effects)
      → is_timed t ≡ true
      → is_timed t' ≡ true
  unfolding timed_run
  timed_run-is_timed [] t t' effects h p =
      let e : t ≡ t' = ground arith in subst (λ x. is_timed x ≡ true) e p
  timed_run-is_timed (event ∷ events) t t' effects h p =
      elim (Result-cases (timed_step formats t event)) [
        | inl ((n, now), e) ↦ elim (Result-cases (timed_run formats n events)) [
          | inl ((k, later), f) ↦
              timed_run-is_timed events n t' later (ground arith)
                (timed_step-is_timed event t n now e p)
          | inr (x, f) ↦ absurd (ground arith)
        ]
        | inr (x, e) ↦ absurd (ground arith)
      ]
