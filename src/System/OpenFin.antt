-- ===== src/System/OpenFin.antt =====
-- src/client/src/system/openFin/openFin.js: the limit checks that another application of the desktop
-- container answers, and what is published to the other applications. The container's bus is behind
-- the calls and the events.
mod Topics
mod Windows
mod Tests
use reactive_trader_cloud.Common.{
  ℕ, suc, ◌+◌, String, Bool, true, false, Option, none, some, List, [], ◌∷◌, ◌++◌, map, ◌===◌,
  if◌then◌else◌,
}
use reactive_trader_cloud.Services.Models.Decimals.{Decimal}
use reactive_trader_cloud.Services.Models.{CurrencyPairPosition, SpotPrice}
use reactive_trader_cloud.Services.Mappers.{
  PositionDto, SpotPriceDto, map_to_spot_price_dto, map_to_position_dto,
}

abbrev pub request_limit_check_topic : String
request_limit_check_topic = "request-limit-check"

pub record OpenFin : Type 0 where
  pub is_running_in_open_fin : Bool
  pub limit_check_subscriber : Option String
  pub limit_check_id : ℕ

-- `limit-check-response (n)` by its number.
pub record Topic : Type 0 where
  pub number : ℕ

-- What the limit checker is sent.
pub record LimitCheck : Type 0 where
  pub id : ℕ
  pub response_topic : Topic
  pub traded_currency_pair : String
  pub notional : ℕ
  pub rate : Decimal

-- The calls of the bus; `undefined` and `null` are no application.
pub data Call : Type 0 where
  subscribe : Option String → Topic → Call
  send : Option String → LimitCheck → Call
  unsubscribe : Option String → Topic → Call
  publish_positions : List PositionDto → Call
  publish_spot_price : SpotPriceDto → Call

-- What the observer of a limit check has at once: the value true and the end, or nothing until an
-- answer on the topic.
pub data Answer : Type 0 where
  delegated : Answer
  awaited : Topic → Answer

abbrev pub created : Bool → OpenFin
created running = record {
  is_running_in_open_fin = running;
  limit_check_subscriber = none;
  limit_check_id = 1;
}

-- The listeners are added only when the container is there.
unfoldable pub on_subscribe : String → String → OpenFin → OpenFin
on_subscribe uuid topic o =
    if o.is_running_in_open_fin
    then if topic === request_limit_check_topic
      then record o { limit_check_subscriber = some uuid }
      else o
    else o

unfoldable pub on_unsubscribe : String → String → OpenFin → OpenFin
on_unsubscribe uuid topic o =
    if o.is_running_in_open_fin
    then if topic === request_limit_check_topic
      then record o { limit_check_subscriber = none }
      else o
    else o

unfoldable pub check_limit : Decimal → ℕ → String → OpenFin → OpenFin × List Call × Answer
check_limit executable_price notional traded_currency_pair o = elim o.limit_check_subscriber [
  | none ↦ (o, [], delegated)
  | some uuid ↦
      let topic : Topic = record { number = o.limit_check_id } in
      let o' : OpenFin = record o { limit_check_id = suc o.limit_check_id } in
      (
        o',
        subscribe o'.limit_check_subscriber topic
            ∷ send o'.limit_check_subscriber (record {
              id = o'.limit_check_id;
              response_topic = topic;
              traded_currency_pair = traded_currency_pair;
              notional = notional;
              rate = executable_price;
            })
            ∷ [],
        awaited topic,
      )
]

-- The end of an observer's subscription to a limit check.
unfoldable pub dispose_check : Answer → OpenFin → List Call
dispose_check delegated o = []
dispose_check (awaited topic) o = unsubscribe o.limit_check_subscriber topic ∷ []

unfoldable pub publish_current_positions : List CurrencyPairPosition → OpenFin → List Call
unfolding map_to_position_dto
publish_current_positions positions o =
    if o.is_running_in_open_fin
    then publish_positions (map map_to_position_dto positions) ∷ []
    else []

unfoldable pub publish_price : SpotPrice → OpenFin → List Call
unfolding map_to_spot_price_dto
publish_price price o =
    if o.is_running_in_open_fin then publish_spot_price (map_to_spot_price_dto price) ∷ [] else []

pub data Event : Type 0 where
  subscribed unsubscribed : String → String → Event
  checked : Decimal → ℕ → String → Event
  disposed : Answer → Event
  positions_published : List CurrencyPairPosition → Event
  price_published : SpotPrice → Event

unfoldable pub step : OpenFin → Event → OpenFin × List Call
unfolding on_subscribe on_unsubscribe check_limit dispose_check publish_current_positions
    publish_price
step o (subscribed uuid topic) = (on_subscribe uuid topic o, [])
step o (unsubscribed uuid topic) = (on_unsubscribe uuid topic o, [])
step o (checked price notional pair) =
    let (o', calls, answer) = check_limit price notional pair o in (o', calls)
step o (disposed answer) = (o, dispose_check answer o)
step o (positions_published positions) = (o, publish_current_positions positions o)
step o (price_published price) = (o, publish_price price o)

unfoldable pub run : OpenFin → List Event → OpenFin × List Call
unfolding step
run o [] = (o, [])
run o (event ∷ events) =
    let (o', calls) = step o event in let (o'', calls') = run o' events in (o'', calls ++ calls')
