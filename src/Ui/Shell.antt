-- ===== src/Ui/Shell.antt =====
-- src/client/src/ui/shell/model/shellModel.js with the connection whose statuses it shows: an event of
-- the connection is followed by the statuses that it published, in their order.
mod Session
mod Tests
use reactive_trader_cloud.Common.{Bool, true, false, List, [], ◌∷◌, ◌++◌, if◌then◌else◌}
use reactive_trader_cloud.System.Connection
use reactive_trader_cloud.System.Connection.{
  ConnectionStatus, idle, connected, disconnected, session_expired, Connection, Effect, publish,
  register_callbacks, open_transport, close_transport, dispose_timer, schedule, connect, step,
}

pub record ShellModel : Type 0 where
  pub session_expired : Bool
  pub is_observing : Bool

abbrev pub started : ShellModel
started = record { session_expired = false; is_observing = false }

abbrev pub is_expired : ConnectionStatus → Bool
is_expired session_expired = true
is_expired _ = false

-- The value of the status stream, if the shell has subscribed to it.
unfoldable pub on_status : ConnectionStatus → ShellModel → ShellModel
on_status status m = if m.is_observing then record m { session_expired = is_expired status } else m

unfoldable pub on_effects : List Effect → ShellModel → ShellModel
unfolding on_status
on_effects [] m = m
on_effects (publish status ∷ effects) m = on_effects effects (on_status status m)
on_effects (register_callbacks ∷ effects) m = on_effects effects m
on_effects (open_transport ∷ effects) m = on_effects effects m
on_effects (close_transport ∷ effects) m = on_effects effects m
on_effects (dispose_timer ∷ effects) m = on_effects effects m
on_effects (schedule n ∷ effects) m = on_effects effects m

-- The shell with the connection, and what the connection called.
pub record App : Type 0 where
  pub connection : Connection
  pub shell : ShellModel

pub data Event : Type 0 where
  init reconnect_clicked : Event
  on_connection : Connection.Event → Event

-- The stream starts with the status that the connection has.
unfoldable pub on_init : App → App × List Effect
unfolding on_status
on_init a = (
  record a { shell = on_status a.connection.status (record a.shell { is_observing = true }) },
  [],
)

unfoldable pub with_connection : Connection × List Effect → App → App × List Effect
unfolding on_effects
with_connection (c, effects) a =
    (record { connection = c; shell = on_effects effects a.shell }, effects)

unfoldable pub on_reconnect : App → App × List Effect
unfolding connect with_connection
on_reconnect a = with_connection (connect a.connection) a

unfoldable pub app_step : App → Event → App × List Effect
unfolding on_init on_reconnect with_connection step
app_step a init = on_init a
app_step a reconnect_clicked = on_reconnect a
app_step a (on_connection e) = with_connection (step a.connection e) a

unfoldable pub app_run : App → List Event → App × List Effect
unfolding app_step
app_run a [] = (a, [])
app_run a (event ∷ events) =
    let (a', effects) = app_step a event in
    let (a'', later) = app_run a' events in (a'', effects ++ later)
