-- ===== src/Ui/Shell/Tests.antt =====
-- The shell on concrete connections, and its theorems there.
use reactive_trader_cloud.Common.{◌≡◌, refl, true, false, List, [], ◌∷◌}
use reactive_trader_cloud.System.Connection
use reactive_trader_cloud.System.Connection.{
  new, connects, opens, closes, elapses, pending, register_callbacks, open_transport,
}
use reactive_trader_cloud.Ui.Shell.{
  ShellModel, App, Event, init, reconnect_clicked, on_connection, started, is_expired, app_step,
  app_run,
}
use reactive_trader_cloud.Ui.Shell.Session.{session_expired-app_run, on_reconnect-closed}

abbrev history : List Event
history =
    on_connection connects
    ∷ on_connection (opens "ws://broker" "websocket")
    ∷ on_connection elapses
    ∷ on_connection (closes "closed")
    ∷ []

abbrev after : App
after = (app_run (record { connection = new "TOM"; shell = started }) (init ∷ history)).0

after-expired : after.shell.session_expired ≡ true
unfolding app_run new
after-expired = refl

session_expired-app_run_example : after.shell.session_expired ≡ is_expired after.connection.status
session_expired-app_run_example = session_expired-app_run (new "TOM") history

abbrev open_connection : Connection.Connection
unfolding new Connection.run
open_connection = (Connection.run (new "TOM") (connects ∷ opens "ws://broker" "websocket" ∷ [])).0

abbrev observing : ShellModel
observing = record { session_expired = false; is_observing = true }

on_reconnect-closed_example :
    let a =
      (app_step
        (record { connection = open_connection; shell = observing })
        (on_connection (closes "closed"))).0 in
    let b =
      (app_run
        (record {
          connection = record open_connection { auto_disconnect = pending };
          shell = observing;
        })
        (on_connection elapses ∷ on_connection (closes "closed") ∷ [])).0 in
    (a.shell.session_expired ≡ true)
    × ((app_step a reconnect_clicked).1 ≡ [])
    × (b.shell.session_expired ≡ true)
    × ((app_step b reconnect_clicked).1 ≡ register_callbacks ∷ open_transport ∷ [])
unfolding open_connection Connection.step
on_reconnect-closed_example = on_reconnect-closed open_connection observing refl refl refl
