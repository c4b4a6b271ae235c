-- ===== src/System/Router.antt =====
-- src/client/src/system/observableExtensions/subscribeWithRouter.js: the values of a stream, handled on
-- the dispatch loop of a model.
mod Tests
use reactive_trader_cloud.Common.{String, Option, none, some, List, [], ◌∷◌}
use reactive_trader_cloud.Common.Result.{Result, returns, throws}
use reactive_trader_cloud.System.Connection.Operations.{Notification, next, error, completed}

-- What the caller passes; `none` is `null` or `undefined`.
pub record Handlers (A : Type 0) (M : Type 0) : Type 0 where
  pub on_next : Option (A → M → M)
  pub on_error : Option (String → M → M)
  pub on_completed : Option (M → M)

-- `run_action` is the router's: the action on the model, and what the dispatch loop does after it.
module _ {A M : Type 0} (run_action : (M → M) → M → M) (handlers : Handlers A M) where
  unfoldable pub on_notification : Notification A → M → Result M
  on_notification (next a) m = elim handlers.on_next [
    | none ↦ returns m
    | some f ↦ returns (run_action (f a) m)
  ]
  on_notification (error e) m = elim handlers.on_error [
    | none ↦ throws e
    | some f ↦ returns (run_action (f e) m)
  ]
  on_notification completed m = elim handlers.on_completed [
    | none ↦ returns m
    | some f ↦ returns (run_action f m)
  ]

  -- The notifications of a stream in their order; an error that nobody handles goes to its source.
  unfoldable pub subscribe_with_router : List (Notification A) → M → Result M
  unfolding on_notification
  subscribe_with_router [] m = returns m
  subscribe_with_router (n ∷ ns) m = elim (on_notification n m) [
    | throws e ↦ throws e
    | returns m' ↦ subscribe_with_router ns m'
  ]
