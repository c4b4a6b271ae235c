-- ===== src/Services/Mappers/Prices.antt =====
-- The spot prices that the price mapper builds.
use reactive_trader_cloud.Common.{
  ℕ, ◌≡◌, ◌↔◌, inl, inr, ◌*◌, ◌<◌, ◌^◌, refl, String, Option, none, some, true, arith,
}
use reactive_trader_cloud.Common.Result.{Result, returns, Result-cases}
use reactive_trader_cloud.Services.Models.Decimals.{Decimal, less}
use reactive_trader_cloud.Services.Models.{CurrencyPair, Rate, SpotPrice, up, down}
use reactive_trader_cloud.Services.Mappers.Rates.{new_rate}
use reactive_trader_cloud.Services.Mappers.{
  PriceDto, get_price_movement_type, map_from_spot_price_dto, map_to_spot_price_dto,
}

-- The value of a decimal is below that of another.
abbrev pub IsBelow : Decimal → Decimal → Type 0
IsBelow a b = a.mantissa * 10 ^ b.scale < b.mantissa * 10 ^ a.scale

movement-up :
    (last : Option PriceDto) (next : PriceDto)
    → (get_price_movement_type last next ≡ up)
      ↔ ((l : PriceDto) × (last ≡ some l) × IsBelow l.mid next.mid)
unfolding get_price_movement_type less
movement-up none next = (λ h. ground arith, λ h. ground arith)
movement-up (some last) next = (λ h. (last, refl, ground arith), λ h. ground arith)

movement-down :
    (last : Option PriceDto) (next : PriceDto)
    → (get_price_movement_type last next ≡ down)
      ↔ ((l : PriceDto) × (last ≡ some l) × IsBelow next.mid l.mid)
unfolding get_price_movement_type less
movement-down none next = (λ h. ground arith, λ h. ground arith)
movement-down (some last) next = (λ h. (last, refl, ground arith), λ h. ground arith)

raw_rate-new_rate :
    (raw : Decimal) (p q : ℕ) (r : Rate) → new_rate raw p q ≡ returns r → r.raw_rate ≡ raw
unfolding new_rate
raw_rate-new_rate raw p q r h = ground arith

module _ (get_currency_pair : String → Result CurrencyPair) where
  -- What a price that was mapped keeps of the one that was sent.
  pub record IsMappedPrice (last : Option PriceDto) (dto : PriceDto) (p : SpotPrice) : Type 0 where
    pub bid : (map_to_spot_price_dto p).bid ≡ dto.bid
    pub ask : (map_to_spot_price_dto p).ask ≡ dto.ask
    pub symbol : (map_to_spot_price_dto p).symbol ≡ dto.symbol
    pub pair :
        (q : CurrencyPair) × (get_currency_pair dto.symbol ≡ returns q)
        × ((map_to_spot_price_dto p).rate_precision ≡ q.rate_precision)
    pub moved_up :
        (p.price_movement_type ≡ up) ↔ ((l : PriceDto) × (last ≡ some l) × IsBelow l.mid dto.mid)
    pub moved_down :
        (p.price_movement_type ≡ down) ↔ ((l : PriceDto) × (last ≡ some l) × IsBelow dto.mid l.mid)
    pub is_tradable : p.is_tradable ≡ true

  map_from_spot_price-parts :
      (last : Option PriceDto) (dto : PriceDto) (p : SpotPrice)
      → map_from_spot_price_dto get_currency_pair last dto ≡ returns p
      → (p.bid.raw_rate ≡ dto.bid)
        × (p.ask.raw_rate ≡ dto.ask)
        × (p.symbol ≡ dto.symbol)
        × ((q : CurrencyPair) × (get_currency_pair dto.symbol ≡ returns q)
            × (p.rate_precision ≡ q.rate_precision))
        × (p.price_movement_type ≡ get_price_movement_type last dto)
        × (p.is_tradable ≡ true)
  unfolding map_from_spot_price_dto
  map_from_spot_price-parts last dto p h = elim (Result-cases (get_currency_pair dto.symbol)) [
    | inl (q, e) ↦ elim (Result-cases (new_rate dto.bid q.rate_precision q.pips_position)) [
      | inl (bid, b) ↦ elim (Result-cases (new_rate dto.ask q.rate_precision q.pips_position)) [
        | inl (ask, a) ↦ ground (
          arith,
          raw_rate-new_rate dto.bid q.rate_precision q.pips_position bid b,
          raw_rate-new_rate dto.ask q.rate_precision q.pips_position ask a,
        )
        | inr (m, a) ↦ ground arith
      ]
      | inr (m, b) ↦ ground arith
    ]
    | inr (m, e) ↦ ground arith
  ]

  -- A spot price that the mapper returns is tradable, is sent on with the bid, the ask and the
  -- symbol that arrived and the precision of the pair; it has moved up exactly when there is a
  -- last price with a smaller mid, and down exactly when there is one with a larger mid.
  pub map_from_spot_price-IsMappedPrice :
      (last : Option PriceDto) (dto : PriceDto) (p : SpotPrice)
      → map_from_spot_price_dto get_currency_pair last dto ≡ returns p
      → IsMappedPrice last dto p
  unfolding map_to_spot_price_dto
  map_from_spot_price-IsMappedPrice last dto p h =
      let (bid, ask, symbol, pair, movement, tradable) = map_from_spot_price-parts last dto p h in
      record {
        bid = bid;
        ask = ask;
        symbol = symbol;
        pair = pair;
        moved_up = rw movement (movement-up last dto);
        moved_down = rw movement (movement-down last dto);
        is_tradable = tradable;
      }
