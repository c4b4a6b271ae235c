-- ===== src/System/Connection/Tests.antt =====
-- Runs of the connection, and its theorems at concrete inputs.
use reactive_trader_cloud.Common.{ℕ, ◌+◌, ◌≡◌, refl, some, List, [], ◌∷◌}
use reactive_trader_cloud.System.Connection.{
  Connection, session_expired, Event, connects, elapses, opens, closes, register_callbacks,
  open_transport, close_transport, schedule, publish, connected, web_socket, new, step, run,
}
use reactive_trader_cloud.System.Connection.Invariant.{
  IsConsistent, run-new-IsConsistent, run-balance, held, total, is_open, is_close,
}
use reactive_trader_cloud.System.Connection.Operations.{
  TopicEvent, acked, received, CallEvent, resolved,
}

abbrev connecting : Connection
connecting = (run (new "LMO") (connects ∷ [])).0

abbrev history : List Event
history =
    connects ∷ opens "ws://host:8080/ws" "websocket" ∷ elapses ∷ closes "closed" ∷ connects ∷ []

run-history :
    (run (new "LMO") history).1
    ≡ register_callbacks
      ∷ open_transport
      ∷ schedule 900000
      ∷ publish connected
      ∷ close_transport
      ∷ publish session_expired
      ∷ register_callbacks
      ∷ open_transport
      ∷ []
unfolding run step new
run-history = refl

opened_type : (run (new "LMO") (connects ∷ opens "url" "websocket" ∷ [])).0.type ≡ some web_socket
unfolding run step new
opened_type = refl

run-new-IsConsistent_example : IsConsistent (run (new "LMO") history).0
run-new-IsConsistent_example = run-new-IsConsistent "LMO" history

run-balance_example :
    held (new "LMO") + total is_open (run (new "LMO") history).1
    ≡ held (run (new "LMO") history).0 + total is_close (run (new "LMO") history).1
run-balance_example = run-balance (new "LMO") history

abbrev received_first : List (TopicEvent ℕ ℕ)
received_first = received (7 ∷ []) ∷ []

abbrev acked_later : List (TopicEvent ℕ ℕ)
acked_later = acked 3 ∷ received [] ∷ []

abbrev late_result : List (CallEvent ℕ)
late_result = resolved 5 ∷ CallEvent.disposes ∷ []
