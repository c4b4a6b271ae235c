-- ===== src/Services/ReferenceData/Tests.antt =====
-- The reference data service at concrete updates.
use reactive_trader_cloud.Common.{
  ◌≡◌, refl, ◌≢◌, true, false, String, List, [], ◌∷◌, All, arith, eq_iff,
}
use reactive_trader_cloud.Common.Result.{returns, throws}
use reactive_trader_cloud.Services.Models.{
  added, removed, UpdateType, CurrencyPair, CurrencyPairUpdate, CurrencyPairUpdates,
}
use reactive_trader_cloud.Services.ReferenceData.{
  pair, flag, new, get_currency_pair, update_all, update_cache,
}
use reactive_trader_cloud.Services.ReferenceData.Cache.{
  IsPlain, all_updates, get_currency_pair-update_all,
}

abbrev pub eurusd : CurrencyPair
eurusd = record {
  symbol = "EURUSD";
  rate_precision = 5;
  pips_position = 4;
  base = "EUR";
  terms = "USD";
  display_string = "EUR/USD";
}

abbrev pub usdjpy : CurrencyPair
usdjpy = record {
  symbol = "USDJPY";
  rate_precision = 3;
  pips_position = 2;
  base = "USD";
  terms = "JPY";
  display_string = "USD/JPY";
}

abbrev change : UpdateType → CurrencyPair → CurrencyPairUpdate
change t p = record { update_type = t; currency_pair = p }

abbrev batch : List CurrencyPairUpdate → CurrencyPairUpdates
batch us = record { is_state_of_the_world = true; is_stale = false; currency_pair_updates = us }

abbrev batches : List CurrencyPairUpdates
batches =
    batch []
    ∷ batch (change added eurusd ∷ change added usdjpy ∷ [])
    ∷ batch (change removed usdjpy ∷ [])
    ∷ []

plain_pair : ◌≢◌ {A = String} "EURUSD" "hasLoaded"
plain_pair = ground (arith, eq_iff "EURUSD" "hasLoaded")

plain_other : ◌≢◌ {A = String} "USDJPY" "hasLoaded"
plain_other = ground (arith, eq_iff "USDJPY" "hasLoaded")

batches-IsPlain : All IsPlain (all_updates batches)
batches-IsPlain = (plain_pair, (plain_other, (plain_other, tt)))

removed_again :
    get_currency_pair "USDJPY" (update_all new batches).0
    ≡ throws "CurrencyPair with symbol [USDJPY] is not in the cache."
unfolding get_currency_pair update_all update_cache new
removed_again = refl

-- The cache answers for its own property.
own_property : get_currency_pair "hasLoaded" (update_all new batches).0 ≡ returns (flag true)
unfolding get_currency_pair update_all update_cache new
own_property = refl

get_currency_pair-update_all_example :
    get_currency_pair "EURUSD" (update_all new batches).0 ≡ returns (pair eurusd)
get_currency_pair-update_all_example =
    get_currency_pair-update_all batches batches-IsPlain "EURUSD" plain_pair
