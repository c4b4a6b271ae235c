-- ===== src/Services/ReferenceData.antt =====
-- src/client/src/services/referenceDataService.js, with the cache as the object that it is: its
-- property `hasLoaded` is stored among the currency pairs.
pub mod Cache
pub mod Tests
use reactive_trader_cloud.Common.{
  ℕ, String, Bool, true, false, not, ◌&&◌, Option, none, some, List, [], ◌∷◌, ◌++◌, ◌<>◌,
  if◌then◌else◌, fold, length, ltb,
}
use reactive_trader_cloud.Common.Dict.{Dict, lookup, has_key, insert, remove}
use reactive_trader_cloud.Common.Result.{Result, returns, throws}
use reactive_trader_cloud.Services.Models.{
  UpdateType, added, removed, CurrencyPair, CurrencyPairUpdate, CurrencyPairUpdates,
}

pub data CacheValue : Type 0 where
  flag : Bool → CacheValue
  pair : CurrencyPair → CacheValue

pub record ReferenceDataService : Type 0 where
  pub load_called : Bool
  pub currency_pair_cache : Dict CacheValue

-- Calls on the connectable stream and on the subject of `hasLoadedStream`.
pub data Effect : Type 0 where
  connect_stream has_loaded_next has_loaded_completed : Effect

unfoldable pub new : ReferenceDataService
new = record { load_called = false; currency_pair_cache = ("hasLoaded", flag false) ∷ [] }

unfoldable pub load : ReferenceDataService → ReferenceDataService × List Effect
load s = if s.load_called then (s, []) else (record s { load_called = true }, connect_stream ∷ [])

-- A value as the condition of a test.
abbrev pub truthy : Option CacheValue → Bool
truthy none = false
truthy (some (flag b)) = b
truthy (some (pair p)) = true

unfoldable pub get_currency_pair : String → ReferenceDataService → Result CacheValue
unfolding lookup has_key
get_currency_pair symbol s =
    if truthy (lookup "hasLoaded" s.currency_pair_cache)
    then elim (lookup symbol s.currency_pair_cache) [
      | none ↦ throws ("CurrencyPair with symbol [" <> symbol <> "] is not in the cache.")
      | some v ↦ returns v
    ]
    else throws "Reference data cache hasn't finished loading"

-- The body of the loop of `_updateCache`.
unfoldable pub apply_update : Dict CacheValue → CurrencyPairUpdate → Dict CacheValue
unfolding insert remove
apply_update cache u = elim u.update_type [
  | added ↦ insert u.currency_pair.symbol (pair u.currency_pair) cache
  | removed ↦ remove u.currency_pair.symbol cache
]

unfoldable pub update_cache :
    CurrencyPairUpdates → ReferenceDataService → ReferenceDataService × List Effect
unfolding fold apply_update lookup insert
update_cache update s =
    let cache = fold apply_update s.currency_pair_cache update.currency_pair_updates in
    if not (truthy (lookup "hasLoaded" cache)) && ltb 0 (length update.currency_pair_updates)
    then (
      record s { currency_pair_cache = insert "hasLoaded" (flag true) cache },
      has_loaded_next ∷ has_loaded_completed ∷ [],
    )
    else (record s { currency_pair_cache = cache }, [])

-- The updates of the stream, in order.
unfoldable pub update_all :
    ReferenceDataService → List CurrencyPairUpdates → ReferenceDataService × List Effect
update_all s [] = (s, [])
update_all s (u ∷ us) =
    let (s', now) = update_cache u s in let (s'', later) = update_all s' us in (s'', now ++ later)
