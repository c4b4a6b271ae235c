-- ===== src/System/Router/Tests.antt =====
-- A stream of numbers that a model adds up.
use reactive_trader_cloud.Common.{ℕ, ◌+◌, ◌≡◌, refl, none, some, [], ◌∷◌}
use reactive_trader_cloud.Common.Result.{returns, throws}
use reactive_trader_cloud.System.Connection.Operations.{next, error, completed}
use reactive_trader_cloud.System.Router.{Handlers, subscribe_with_router}

abbrev adding : Handlers ℕ ℕ
adding = record { on_next = some (λ a m. a + m); on_error = none; on_completed = none }

abbrev at_once : (ℕ → ℕ) → ℕ → ℕ
at_once action m = action m

added_up : subscribe_with_router at_once adding (next 2 ∷ next 3 ∷ completed ∷ []) 1 ≡ returns 6
unfolding subscribe_with_router
added_up = refl

-- A subscriber without a handler of errors throws them.
unhandled : subscribe_with_router at_once adding (next 2 ∷ error "down" ∷ []) 1 ≡ throws "down"
unfolding subscribe_with_router
unhandled = refl
