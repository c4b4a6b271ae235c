-- ===== src/Services/Pricing/Prices.antt =====
-- The prices of the stream.
use reactive_trader_cloud.Common.{
  ◌≡◌, refl, sym, ◌∙◌, true, false, Option, none, some, List, [], ◌∷◌, inl, inr, arith, String,
  if◌then◌else◌, Option-cases,
}
use reactive_trader_cloud.Common.Result.{Result, returns, throws, Result-cases}
use reactive_trader_cloud.Services.Models.{CurrencyPair, SpotPrice}
use reactive_trader_cloud.Services.Mappers.{PriceDto, map_from_spot_price_dto}
use reactive_trader_cloud.Services.Mappers.Prices.{map_from_spot_price-IsMappedPrice}
use reactive_trader_cloud.Services.Pricing.{
  Event, next, retried_error, completed, Output, price, failed, finished, Subscription, subscribed,
  stale_price, on_retried_error, on_next, step, run,
}

-- A price that cannot be dealt at any more.
abbrev pub withdrawn : SpotPrice → SpotPrice
withdrawn p = record p { is_tradable = false }

-- The messages up to the end of the stream, each mapped with the one before it.
unfoldable pub mapped :
    (String → Result CurrencyPair) → Option PriceDto → List Event → List SpotPrice
mapped pairs last [] = []
mapped pairs last (next dto ∷ events) = elim (map_from_spot_price_dto pairs last dto) [
  | returns p ↦ p ∷ mapped pairs (some dto) events
  | throws message ↦ []
]
mapped pairs last (retried_error ∷ events) = mapped pairs last events
mapped pairs last (completed ∷ events) = []

-- A mapped message and what comes after it, and an error after a price and what comes after it.
abbrev pub given : Result SpotPrice → List Output → List Output
given (returns p) rest = price p ∷ rest
given (throws message) rest = failed message ∷ []

abbrev pub repriced : Option SpotPrice → List Output → List Output
repriced none rest = rest
repriced (some p) rest = price (withdrawn p) ∷ rest

abbrev pub newest : List PriceDto → Option PriceDto
newest [] = none
newest (dto ∷ older) = some dto

abbrev pub tradable : List Output → List SpotPrice
tradable [] = []
tradable (price p ∷ rest) = if p.is_tradable then p ∷ tradable rest else tradable rest
tradable (_ ∷ rest) = tradable rest

module _ (get_currency_pair : String → Result CurrencyPair) where
  is_tradable-mapped :
      (last : Option PriceDto) (dto : PriceDto) (p : SpotPrice)
      → map_from_spot_price_dto get_currency_pair last dto ≡ returns p
      → p.is_tradable ≡ true
  is_tradable-mapped last dto p h =
      (map_from_spot_price-IsMappedPrice get_currency_pair last dto p h).is_tradable

  run-next :
      (dto : PriceDto) (events : List Event) (s : Subscription) (p : SpotPrice)
      → s.is_stopped ≡ false
      → map_from_spot_price_dto get_currency_pair s.next_price_dto dto ≡ returns p
      → run get_currency_pair s (next dto ∷ events)
        ≡ price p
          ∷ run get_currency_pair
              (record s { last_price = some p; next_price_dto = some dto })
              events
  unfolding run step on_next
  run-next dto events s p h e = ground arith

  run-failed :
      (dto : PriceDto) (events : List Event) (s : Subscription) (message : String)
      → map_from_spot_price_dto get_currency_pair s.next_price_dto dto ≡ throws message
      → run get_currency_pair s (next dto ∷ events) ≡ failed message ∷ []
  unfolding run step on_next
  run-failed dto events s message e = ground arith

  run-silent :
      (events : List Event) (s : Subscription)
      → s.is_stopped ≡ false
      → s.last_price ≡ none
      → run get_currency_pair s (retried_error ∷ events) ≡ run get_currency_pair s events
  unfolding run step on_retried_error
  run-silent events s h e = ground arith

  run-stale :
      (events : List Event) (s : Subscription) (q : SpotPrice)
      → s.is_stopped ≡ false
      → s.last_price ≡ some q
      → run get_currency_pair s (retried_error ∷ events)
        ≡ price (stale_price q) ∷ run get_currency_pair s events
  unfolding run step on_retried_error
  run-stale events s q h e = ground arith

  -- The price of the newest of some messages, which is mapped with the one before it.
  abbrev pub newest_price : List PriceDto → Option SpotPrice
  newest_price [] = none
  newest_price (dto ∷ older) = elim (map_from_spot_price_dto get_currency_pair (newest older) dto) [
    | returns p ↦ some p
    | throws message ↦ none
  ]

  -- What the observer is given after some messages, the newest of them first, from these alone: the
  -- price of each message, the newest price withdrawn for each error, and the end.
  unfoldable pub account : List PriceDto → List Event → List Output
  account earlier [] = []
  account earlier (next dto ∷ events) =
      given (map_from_spot_price_dto get_currency_pair (newest earlier) dto)
        (account (dto ∷ earlier) events)
  account earlier (retried_error ∷ events) =
      repriced (newest_price earlier) (account earlier events)
  account earlier (completed ∷ events) = finished ∷ []

  newest_price-returns :
      (dto : PriceDto) (earlier : List PriceDto) (p : SpotPrice)
      → map_from_spot_price_dto get_currency_pair (newest earlier) dto ≡ returns p
      → some p ≡ newest_price (dto ∷ earlier)
  newest_price-returns dto earlier p e = rw (newest_price, e) refl

  run-account :
      (events : List Event) (earlier : List PriceDto) (s : Subscription)
      → s.is_stopped ≡ false
      → s.next_price_dto ≡ newest earlier
      → s.last_price ≡ newest_price earlier
      → run get_currency_pair s events ≡ account earlier events
  unfolding run step account stale_price
  run-account [] earlier s h n l = refl
  run-account (next dto ∷ events) earlier s h n l =
      elim (Result-cases (map_from_spot_price_dto get_currency_pair s.next_price_dto dto)) [
        | inl (p, e) ↦
            let s' = record s { last_price = some p; next_price_dto = some dto } in
            let mapped_newest : map_from_spot_price_dto get_currency_pair (newest earlier) dto
                ≡ returns p =
              rw (← n) e in
            let ih =
              run-account events (dto ∷ earlier) s' h refl
                (newest_price-returns dto earlier p mapped_newest) in
            rw (run-next dto events s p h e, mapped_newest, ih) refl
        | inr (m, e) ↦
            let mapped_newest : map_from_spot_price_dto get_currency_pair (newest earlier) dto
                ≡ throws m =
              rw (← n) e in
            rw (run-failed dto events s m e, mapped_newest) refl
      ]
  run-account (retried_error ∷ events) earlier s h n l = elim (Option-cases s.last_price) [
    | inl e ↦ rw (run-silent events s h e, sym l ∙ e) (run-account events earlier s h n l)
    | inr (q, e) ↦ rw (run-stale events s q h e, sym l ∙ e, run-account events earlier s h n l) refl
  ]
  run-account (completed ∷ events) earlier s h n l = refl

  -- The observer of a price stream is given, until the mapper refuses a message or the stream ends:
  -- the price of each message, mapped with the message before it, and for each error that is retried
  -- after a message the newest message's price once more, alike in every field but no longer tradable;
  -- for an error before the first message it is given nothing.
  pub run-subscribed :
      (events : List Event) → run get_currency_pair subscribed events ≡ account [] events
  unfolding subscribed
  run-subscribed events = run-account events [] subscribed refl refl refl

  tradable-run :
      (events : List Event) (s : Subscription)
      → s.is_stopped ≡ false
      → tradable (run get_currency_pair s events) ≡ mapped get_currency_pair s.next_price_dto events
  unfolding run step mapped stale_price
  tradable-run [] s h = refl
  tradable-run (next dto ∷ events) s h =
      elim (Result-cases (map_from_spot_price_dto get_currency_pair s.next_price_dto dto)) [
        | inl (p, e) ↦
            let t = is_tradable-mapped s.next_price_dto dto p e in
            let s' = record s { last_price = some p; next_price_dto = some dto } in
            ground (arith, run-next dto events s p h e, tradable-run events s' h)
        | inr (m, e) ↦ ground (arith, run-failed dto events s m e)
      ]
  tradable-run (retried_error ∷ events) s h = elim (Option-cases s.last_price) [
    | inl e ↦ rw (run-silent events s h e) (tradable-run events s h)
    | inr (q, e) ↦ rw (run-stale events s q h e) (tradable-run events s h)
  ]
  tradable-run (completed ∷ events) s h = refl

  -- The tradable prices that the observer is given are those of the messages up to the first that
  -- the mapper refuses or the end of the stream, each mapped with the message before it, whatever
  -- errors are retried in between.
  pub tradable-run-subscribed :
      (events : List Event)
      → tradable (run get_currency_pair subscribed events) ≡ mapped get_currency_pair none events
  unfolding subscribed
  tradable-run-subscribed events = tradable-run events subscribed refl
