-- ===== src/System/Connection.antt =====
-- src/client/src/system/service/connection.js, with connectionStatus.js, autobahnConnectionProxy.js
-- and services/mappers/connectionTypeMapper.js. A method is a function to the new state and the
-- calls that it makes on its collaborators, in their order; the callbacks that it registers with
-- autobahn and the scheduler are events of the environment.
pub mod Invariant
pub mod Session
pub mod Operations
pub mod Tests
use reactive_trader_cloud.Common.{
  ℕ, ◌*◌, String, Bool, true, false, Option, none, some, List, [], ◌∷◌, ◌++◌, ◌===◌, if◌then◌else◌,
}
use reactive_trader_cloud.Common.Dict.{Dict, lookup}

pub data ConnectionStatus : Type 0 where
  idle connected disconnected session_expired : ConnectionStatus

pub data ConnectionType : Type 0 where
  unknown web_socket long_polling : ConnectionType

-- The table of `ConnectionTypeMapper`.
abbrev pub connection_types : Dict ConnectionType
connection_types = ("websocket", web_socket) ∷ ("longpoll", long_polling) ∷ []

-- A type that the table lacks is `undefined`.
unfoldable pub map_connection_type : String → Option ConnectionType
unfolding lookup
map_connection_type type = lookup type connection_types

-- What the serial disposable of the auto disconnect holds: nothing, a timer that is scheduled, or
-- one that has been disposed or has run. It holds one timer at a time, and disposes it when it is
-- given another.
pub data Timer : Type 0 where
  unset pending spent : Timer

pub record Connection : Type 0 where
  pub user_name : String
  pub status : ConnectionStatus  -- the value of the behaviour subject
  pub connect_called : Bool
  pub is_connected : Bool
  pub has_callbacks : Bool  -- `onopen` and `onclose` are registered with the proxy
  pub url : String
  pub type : Option ConnectionType
  pub auto_disconnect : Timer
  pub is_disposed : Bool

pub data Effect : Type 0 where
  register_callbacks open_transport close_transport dispose_timer : Effect
  schedule : ℕ → Effect
  publish : ConnectionStatus → Effect

abbrev pub disconnect_session_after : ℕ
disconnect_session_after = 1000 * 60 * 15

unfoldable pub new : String → Connection
new user_name = record {
  user_name = user_name;
  status = idle;
  connect_called = false;
  is_connected = false;
  has_callbacks = false;
  url = "";
  type = some unknown;
  auto_disconnect = unset;
  is_disposed = false;
}

unfoldable pub connect : Connection → Connection × List Effect
connect c = if c.connect_called then (c, []) else (
  record c { connect_called = true; has_callbacks = true },
  register_callbacks ∷ open_transport ∷ [],
)

unfoldable pub disconnect : Connection → Connection × List Effect
disconnect c =
    if c.connect_called
    then (record c { connect_called = false }, close_transport ∷ [])
    else (c, [])

-- Disposing a timer calls nothing unless it is pending.
abbrev pub dispose_held : Timer → List Effect
dispose_held pending = dispose_timer ∷ []
dispose_held _ = []

abbrev pub disposed : Timer → Timer
disposed unset = unset
disposed _ = spent

-- `_startAutoDisconnectTimer`. A serial disposable that is disposed already disposes what it gets.
unfoldable pub start_auto_disconnect_timer : Connection → Connection × List Effect
start_auto_disconnect_timer c =
    if c.is_disposed then (c, schedule disconnect_session_after ∷ dispose_timer ∷ []) else (
      record c { auto_disconnect = pending },
      schedule disconnect_session_after ∷ dispose_held c.auto_disconnect,
    )

-- The callback that `connect` gives to `onopen`.
unfoldable pub on_open : String → String → Connection → Connection × List Effect
unfolding start_auto_disconnect_timer map_connection_type
on_open url type c =
    let (c', timer) =
      start_auto_disconnect_timer
        (record c { is_connected = true; url = url; type = map_connection_type type }) in
    (record c' { status = connected }, timer ++ publish connected ∷ [])

abbrev pub status_for : String → ConnectionStatus
status_for reason = if reason === "closed" then session_expired else disconnected

-- The callback that `connect` gives to `onclose`.
unfoldable pub on_close : String → Connection → Connection × List Effect
on_close reason c = (
  record c {
    is_connected = false;
    auto_disconnect = disposed c.auto_disconnect;
    status = status_for reason;
  },
  dispose_held c.auto_disconnect ++ publish (status_for reason) ∷ [],
)

-- The action of the auto disconnect timer.
unfoldable pub on_elapsed : Connection → Connection × List Effect
unfolding disconnect
on_elapsed c = disconnect (record c { auto_disconnect = spent })

-- `DisposableBase.dispose`
unfoldable pub dispose : Connection → Connection × List Effect
dispose c =
    (record c { is_disposed = true; auto_disconnect = unset }, dispose_held c.auto_disconnect)

pub data Event : Type 0 where
  connects disconnects disposes elapses : Event
  opens : String → String → Event
  closes : String → Event

abbrev pub is_pending : Timer → Bool
is_pending pending = true
is_pending _ = false

-- The proxy calls no callback before one is registered, and the scheduler runs no action that is
-- not pending.
unfoldable pub step : Connection → Event → Connection × List Effect
unfolding connect disconnect dispose on_elapsed on_open on_close
step c connects = connect c
step c disconnects = disconnect c
step c disposes = dispose c
step c elapses = if is_pending c.auto_disconnect then on_elapsed c else (c, [])
step c (opens url type) = if c.has_callbacks then on_open url type c else (c, [])
step c (closes reason) = if c.has_callbacks then on_close reason c else (c, [])

unfoldable pub run : Connection → List Event → Connection × List Effect
run c [] = (c, [])
run c (e ∷ es) = let (c', now) = step c e in let (c'', later) = run c' es in (c'', now ++ later)
