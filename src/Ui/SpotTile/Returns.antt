-- ===== src/Ui/SpotTile/Returns.antt =====
-- The handlers of the spot tile's model return once there is a price.
use reactive_trader_cloud.Common.{
  ◌≡◌, refl, Bool, true, ◌||◌, List, [], ◌∷◌, ◌++◌, arith, All, is_some, inl, inr,
}
use reactive_trader_cloud.Common.Result.{returns, Result-cases}
use reactive_trader_cloud.Ui.SpotTile.{
  Formats, execution_next, SpotTileModel, Event, Effect, step, run, on_execute_trade,
  on_close_position, on_execution_next, on_trade_response, on_execution_error, on_price_next,
  on_price_silent, on_statuses, create_trade_request,
}

-- A response has an error or a trade, as those of `ExecuteTradeResponse.create` and
-- `createForError` have.
abbrev pub is_answer : Event → Bool
is_answer (execution_next response) = response.has_error || is_some response.trade
is_answer _ = true

module _ (formats : Formats) where
  step-returns :
      (event : Event) (m : SpotTileModel)
      → is_answer event ≡ true
      → is_some m.current_spot_price ≡ true
      → (n : SpotTileModel) × (now : List Effect) × (step formats event m ≡ returns (n, now))
        × (is_some n.current_spot_price ≡ true)
  unfolding step on_execute_trade on_close_position on_execution_next on_trade_response
      on_execution_error on_price_next on_price_silent on_statuses create_trade_request
  step-returns event m a p = elim (Result-cases (step formats event m)) [
    | inl ((n, now), e) ↦ (n, now, e, ground arith)
    | inr (t, e) ↦ absurd (ground arith)
  ]

  -- On a tile that has a price, any events are handled without an error, and the tile has a price
  -- afterwards, if each response that arrives has an error or a trade.
  pub run-returns :
      (events : List Event) (m : SpotTileModel)
      → All (λ e. is_answer e ≡ true) events
      → is_some m.current_spot_price ≡ true
      → (m' : SpotTileModel) × (effects : List Effect) × (run formats m events
          ≡ returns (m', effects))
        × (is_some m'.current_spot_price ≡ true)
  unfolding run
  run-returns [] m a p = (m, [], refl, p)
  run-returns (event ∷ events) m a p =
      let (n, now, e, q) = step-returns event m a.0 p in
      let (m', later, f, r) = run-returns events n a.1 q in (m', now ++ later, rw (e, f) refl, r)
