-- ===== src/Ui/Shell/Session.antt =====
-- The shell shows an expired session while the connection has expired, and what its button does.
use reactive_trader_cloud.Common.{◌≡◌, refl, true, List, [], ◌∷◌, arith, eq_iff}
use reactive_trader_cloud.System.Connection
use reactive_trader_cloud.System.Connection.{
  ConnectionStatus, idle, connected, disconnected, session_expired, Effect, publish,
  register_callbacks, open_transport, new, step, connect, connects, disconnects, disposes, elapses,
  opens, closes, disconnect, dispose, on_elapsed, on_open, on_close, start_auto_disconnect_timer,
  pending,
}
use reactive_trader_cloud.Ui.Shell.{
  ShellModel, started, is_expired, on_status, on_effects, App, Event, init, reconnect_clicked,
  on_connection, on_init, on_reconnect, with_connection, app_step, app_run,
}

-- Once it observes, the shell agrees with the connection.
abbrev Agrees : ShellModel → ConnectionStatus → Type 0
Agrees m status = (m.is_observing ≡ true) × (m.session_expired ≡ is_expired status)

step-Agrees :
    (c : Connection.Connection) (e : Connection.Event) (m : ShellModel)
    → Agrees m c.status
    → Agrees (on_effects (step c e).1 m) (step c e).0.status
unfolding step on_effects on_status connect disconnect dispose on_elapsed on_open on_close
    start_auto_disconnect_timer
step-Agrees c connects m h = ground arith
step-Agrees c disconnects m h = ground arith
step-Agrees c disposes m h = ground arith
step-Agrees c elapses m h = ground arith
step-Agrees c (opens url type) m h = ground arith
step-Agrees c (closes reason) m h = ground arith

app_step-Agrees :
    (a : App) (event : Event)
    → Agrees a.shell a.connection.status
    → Agrees (app_step a event).0.shell (app_step a event).0.connection.status
unfolding app_step on_init on_reconnect with_connection on_status step
app_step-Agrees a init h = (refl, refl)
app_step-Agrees a reconnect_clicked h = step-Agrees a.connection connects a.shell h
app_step-Agrees a (on_connection e) h = step-Agrees a.connection e a.shell h

app_run-Agrees :
    (a : App) (events : List Event)
    → Agrees a.shell a.connection.status
    → Agrees (app_run a events).0.shell (app_run a events).0.connection.status
unfolding app_run
app_run-Agrees a [] h = h
app_run-Agrees a (event ∷ events) h =
    app_run-Agrees (app_step a event).0 events (app_step-Agrees a event h)

-- After the start of the shell on any connection, whatever happens to the connection and whatever is
-- clicked, the shell shows an expired session exactly while the status of the connection is that of
-- one.
pub session_expired-app_run :
    (c : Connection.Connection) (events : List Event)
    → let a = (app_run (record { connection = c; shell = started }) (init ∷ events)).0 in
      a.shell.session_expired ≡ is_expired a.connection.status
unfolding app_run app_step on_init on_status
session_expired-app_run c events =
    (app_run-Agrees
      (record {
        connection = c;
        shell = record { session_expired = is_expired c.status; is_observing = true };
      })
      events (refl, refl)).1

-- A session that the transport closes with the reason `closed` is shown as expired. The button then
-- opens the transport again if the timer of the session had elapsed before, and does nothing if it
-- had not.
pub on_reconnect-closed :
    (c : Connection.Connection) (m : ShellModel)
    → c.connect_called ≡ true
    → c.has_callbacks ≡ true
    → m.is_observing ≡ true
    → let a =
        (app_step (record { connection = c; shell = m }) (on_connection (closes "closed"))).0 in
      let b =
        (app_run
          (record { connection = record c { auto_disconnect = pending }; shell = m })
          (on_connection elapses ∷ on_connection (closes "closed") ∷ [])).0 in
      (a.shell.session_expired ≡ true)
      × ((app_step a reconnect_clicked).1 ≡ [])
      × (b.shell.session_expired ≡ true)
      × ((app_step b reconnect_clicked).1 ≡ register_callbacks ∷ open_transport ∷ [])
unfolding app_run app_step on_reconnect with_connection on_effects on_status step connect disconnect
    on_elapsed on_close
on_reconnect-closed c m called registered observing = ground (arith, eq_iff "closed" "closed")
