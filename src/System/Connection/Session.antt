-- ===== src/System/Connection/Session.antt =====
-- The life of a session: it expires by its timer, and only then can `connect` open the transport
-- again; a transport that is lost for another reason is left to retry by itself.
use reactive_trader_cloud.Common.{String, ◌≡◌, ◌≢◌, true, false, [], ◌∷◌, arith, eq_iff}
use reactive_trader_cloud.System.Connection.{
  Connection, disconnected, session_expired, spent, connects, disconnects, elapses, opens, closes,
  register_callbacks, open_transport, close_transport, step, run,
}

module _ (c : Connection) (called : c.connect_called ≡ true)
    (registered : c.has_callbacks ≡ true) where
  -- On a connection that is not disposed and on which `connect` was called: when the transport
  -- opens, the auto disconnect timer elapses and the transport reports `closed`, the status is
  -- `session_expired`, the connection is not connected, its timer is spent, and the next call of
  -- `connect` registers the callbacks and opens the transport again.
  pub session_expires :
      (url type : String)
      → c.is_disposed ≡ false
      → let c' = (run c (opens url type ∷ elapses ∷ closes "closed" ∷ [])).0 in
        (c'.status ≡ session_expired)
        × (c'.is_connected ≡ false)
        × (c'.auto_disconnect ≡ spent)
        × ((step c' connects).1 ≡ register_callbacks ∷ open_transport ∷ [])
  unfolding run step
  session_expires url type kept = ground (arith, eq_iff "closed" "closed")

  -- On a connection on which `connect` was called, a close for a reason other than `closed` gives
  -- the status `disconnected`; `connect` then calls nothing, and `disconnect` still closes the
  -- transport.
  pub transport_lost :
      (reason : String)
      → reason ≢ "closed"
      → let c' = (step c (closes reason)).0 in
        (c'.status ≡ disconnected)
        × ((step c' connects).1 ≡ [])
        × ((step c' disconnects).1 ≡ close_transport ∷ [])
  unfolding step
  transport_lost reason other = ground (arith, eq_iff reason "closed")
