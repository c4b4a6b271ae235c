-- ===== src/Ui/Blotter/Stream/Tests.antt =====
-- The blotter on a trade stream that fails once and is retried.
use mathlib.Core.List.{Nodup, Nodup-nil, Nodup-cons, not-mem-nil}
use reactive_trader_cloud.Common.{ℕ, ◌≡◌, refl, Bool, true, false, some, List, [], ◌∷◌, map, All}
use reactive_trader_cloud.Common.Result.{returns, throws}
use reactive_trader_cloud.System.Connection.Operations.{next, error}
use reactive_trader_cloud.System.Retry.{RetryEvent, source, elapsed, should_retry}
use reactive_trader_cloud.Common.Sorting.{sort}
use reactive_trader_cloud.Services.Models.{done}
use reactive_trader_cloud.Services.Streams.Values.{mapped_while}
use reactive_trader_cloud.Services.Mappers.{TradeDto, TradesDto, map_trades_from_dto}
use reactive_trader_cloud.Services.Mappers.Tests.{pairs, trade_dto}
use reactive_trader_cloud.Ui.Blotter.{BlotterModel, Effect, new, run}
use reactive_trader_cloud.Ui.Blotter.Account.{table, blank, shown-run}
use reactive_trader_cloud.Ui.Blotter.Ids.{IsPlainEvent}
use reactive_trader_cloud.Ui.Blotter.Updates.{shown}
use reactive_trader_cloud.Ui.Blotter.Tests.{sort_trades, numbered, events, events-IsPlain}
use reactive_trader_cloud.Ui.Blotter.Stream.{
  subscribe_to_trade_stream, received, shown-subscribe_to_trade_stream,
}

abbrev dto : ℕ → TradeDto
dto id = record trade_dto { trade_id = id }

abbrev message : Bool → List TradeDto → RetryEvent TradesDto
message sow ts =
    source (next (record { is_state_of_the_world = sow; is_stale = false; trades = ts }))

-- The third message has a trade that cannot be mapped, so that the fourth is not heard.
abbrev happenings : List (RetryEvent TradesDto)
happenings =
    message true (dto 1 ∷ [])
    ∷ source (error "down")
    ∷ elapsed
    ∷ message false (dto 2 ∷ [])
    ∷ message false (record (dto 3) { status = "Unheard of" } ∷ [])
    ∷ message false (dto 4 ∷ [])
    ∷ []

only_first : (t : ℕ) → Nodup {A = ℕ} (t ∷ [])
only_first t = Nodup-cons.1 (not-mem-nil, Nodup-nil)

received-IsPlain : All IsPlainEvent (received sort_trades pairs happenings)
unfolding mapped_while map_trades_from_dto
received-IsPlain = (only_first 1, (tt, tt))

first_shown :
    map
      (λ r. r.trade.trade_id)
      (elim (subscribe_to_trade_stream sort_trades pairs happenings new) [
        | throws e ↦ []
        | returns s ↦ s.0.trades
      ])
    ≡ 2 ∷ 1 ∷ []
unfolding subscribe_to_trade_stream new sort should_retry
first_shown = refl

shown-run_example : shown 3 (run sort_trades new events).0.trades ≡ some (numbered 3 done)
shown-run_example = shown-run sort_trades events 3 events-IsPlain

shown-subscribe_to_trade_stream_example :
    (m : BlotterModel) × (effects : List Effect) × (subscribe_to_trade_stream sort_trades pairs
        happenings new
      ≡ returns (m, effects))
    × ((k : ℕ) → shown k m.trades ≡ table blank (received sort_trades pairs happenings) k)
shown-subscribe_to_trade_stream_example =
    shown-subscribe_to_trade_stream sort_trades pairs happenings received-IsPlain
