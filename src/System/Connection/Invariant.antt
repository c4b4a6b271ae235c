-- ===== src/System/Connection/Invariant.antt =====
-- What holds of a connection between two events, whatever the transport does.
use reactive_trader_cloud.Common.{
  ℕ, ◌+◌, String, ◌≡◌, true, false, List, [], ◌∷◌, ◌++◌, arith, if◌then◌else◌,
}
use reactive_trader_cloud.System.Connection.{
  Connection, connected, pending, Event, connects, Effect, open_transport, close_transport, new,
  step, run,
}

pub record IsConsistent (c : Connection) : Type 0 where
  pub connected_status : c.is_connected ≡ true → c.status ≡ connected
  pub status_connected : c.status ≡ connected → c.is_connected ≡ true
  pub timer_connected : c.auto_disconnect ≡ pending → c.is_connected ≡ true
  pub timer_kept : c.auto_disconnect ≡ pending → c.is_disposed ≡ false
  pub registered : c.connect_called ≡ true → c.has_callbacks ≡ true

new-IsConsistent : (name : String) → IsConsistent (new name)
unfolding new
new-IsConsistent name = ground arith

pub step-IsConsistent : (c : Connection) (e : Event) → IsConsistent c → IsConsistent (step c e).0
unfolding step
step-IsConsistent c connects h = ground arith
step-IsConsistent c e h = ground arith

run-IsConsistent : (c : Connection) (es : List Event) → IsConsistent c → IsConsistent (run c es).0
unfolding run
run-IsConsistent c [] h = h
run-IsConsistent c (e ∷ es) h = run-IsConsistent (step c e).0 es (step-IsConsistent c e h)

-- After any sequence of calls and of events of the transport and of the timer, the connection
-- says that it is connected exactly when the last status published is `connected`, and an auto
-- disconnect timer is pending only while it is connected and not disposed; where `connect` is in
-- force the callbacks are registered.
pub run-new-IsConsistent : (name : String) (es : List Event) → IsConsistent (run (new name) es).0
run-new-IsConsistent name es = run-IsConsistent (new name) es (new-IsConsistent name)

abbrev pub is_open : Effect → ℕ
is_open open_transport = 1
is_open _ = 0

abbrev pub is_close : Effect → ℕ
is_close close_transport = 1
is_close _ = 0

abbrev pub total : (Effect → ℕ) → List Effect → ℕ
total weigh [] = 0
total weigh (x ∷ xs) = weigh x + total weigh xs

total-append :
    (weigh : Effect → ℕ) (xs ys : List Effect)
    → total weigh (xs ++ ys) ≡ total weigh xs + total weigh ys
total-append weigh [] ys = omega arith
total-append weigh (x ∷ xs) ys = omega (arith, total-append weigh xs ys)

abbrev pub held : Connection → ℕ
held c = if c.connect_called then 1 else 0

step-balance :
    (c : Connection) (e : Event)
    → held c + total is_open (step c e).1 ≡ held (step c e).0 + total is_close (step c e).1
unfolding step
step-balance c connects = ground arith
step-balance c e = ground arith

-- Over any history, counting one `open` for a connection on which `connect` is already in force, the
-- calls that open the transport outnumber those that close it by one if `connect` is in force at
-- the end, and there are as many of each otherwise.
pub run-balance :
    (c : Connection) (es : List Event)
    → held c + total is_open (run c es).1 ≡ held (run c es).0 + total is_close (run c es).1
unfolding run
run-balance c [] = omega arith
run-balance c (e ∷ es) = omega (
  arith,
  step-balance c e,
  run-balance (step c e).0 es,
  total-append is_open (step c e).1 (run (step c e).0 es).1,
  total-append is_close (step c e).1 (run (step c e).0 es).1,
)
