-- ===== src/Services/ReferenceData/Cache.antt =====
-- What the cache answers after any sequence of updates, and when the data counts as loaded.
use reactive_trader_cloud.Common.{
  String, ◌≡◌, ◌≢◌, refl, sym, ap, ◌∙◌, Bool, true, false, not, ◌&&◌, ◌||◌, Option, none, some,
  List, [], ◌∷◌, ◌++◌, ◌<>◌, ◌===◌, if◌then◌else◌, fold, All, All-split, arith, eq_iff, eq_refl,
}
use reactive_trader_cloud.Common.Dict.{Dict, lookup, insert, lookup-insert, lookup-remove}
use reactive_trader_cloud.Common.Result.{Result, returns, throws}
use reactive_trader_cloud.Services.Models.{added, removed, CurrencyPairUpdate, CurrencyPairUpdates}
use reactive_trader_cloud.Services.ReferenceData.{
  CacheValue, flag, pair, ReferenceDataService, Effect, has_loaded_next, has_loaded_completed, new,
  get_currency_pair, apply_update, update_cache, update_all,
}

-- What the last update of a symbol says, or the value before.
abbrev pub last_update : String → Option CacheValue → List CurrencyPairUpdate → Option CacheValue
last_update symbol before [] = before
last_update symbol before (u ∷ us) =
    last_update symbol
      (if u.currency_pair.symbol === symbol
        then elim u.update_type [ added ↦ some (pair u.currency_pair) | removed ↦ none ]
        else before)
      us

abbrev pub all_updates : List CurrencyPairUpdates → List CurrencyPairUpdate
all_updates [] = []
all_updates (u ∷ us) = u.currency_pair_updates ++ all_updates us

-- No pair is called like the cache's own property.
abbrev pub IsPlain : CurrencyPairUpdate → Type 0
IsPlain u = u.currency_pair.symbol ≢ "hasLoaded"

abbrev pub is_nonempty {ℓ} : {A : Type ℓ} → List A → Bool
is_nonempty [] = false
is_nonempty (x ∷ xs) = true

lookup-apply_update :
    (k : String) (c : Dict CacheValue) (u : CurrencyPairUpdate)
    → lookup k (apply_update c u) ≡ (
        if u.currency_pair.symbol === k
        then elim u.update_type [ added ↦ some (pair u.currency_pair) | removed ↦ none ]
        else lookup k c)
unfolding apply_update
lookup-apply_update k c u = ground (
  arith,
  lookup-insert k u.currency_pair.symbol (pair u.currency_pair) c,
  lookup-remove k u.currency_pair.symbol c,
)

lookup-fold :
    (k : String) (us : List CurrencyPairUpdate) (c : Dict CacheValue)
    → lookup k (fold apply_update c us) ≡ last_update k (lookup k c) us
unfolding fold
lookup-fold k [] c = refl
lookup-fold k (u ∷ us) c =
    lookup-fold k us (apply_update c u) ∙ ap (λ v. last_update k v us) (lookup-apply_update k c u)

last_update-plain :
    (us : List CurrencyPairUpdate) (v : Option CacheValue)
    → All IsPlain us
    → last_update "hasLoaded" v us ≡ v
last_update-plain [] v h = refl
last_update-plain (u ∷ us) v h =
    ground (arith, eq_iff u.currency_pair.symbol "hasLoaded", last_update-plain us v h.1)

last_update-append :
    (k : String) (xs ys : List CurrencyPairUpdate) (v : Option CacheValue)
    → last_update k v (xs ++ ys) ≡ last_update k (last_update k v xs) ys
last_update-append k [] ys v = refl
last_update-append k (u ∷ xs) ys v = last_update-append k xs ys _

-- The cache holds the flag, with this value.
abbrev IsFlagged : Bool → ReferenceDataService → Type 0
IsFlagged b s = lookup "hasLoaded" s.currency_pair_cache ≡ some (flag b)

record IsUpdated (b : Bool) (us : List CurrencyPairUpdate) (s s' : ReferenceDataService)
    (es : List Effect) : Type 0 where
  flagged : IsFlagged (b || is_nonempty us) s'
  cached :
      (k : String)
      → k ≢ "hasLoaded"
      → lookup k s'.currency_pair_cache ≡ last_update k (lookup k s.currency_pair_cache) us
  announced :
      es ≡ (if not b && is_nonempty us then (has_loaded_next ∷ has_loaded_completed ∷ []) else [])

lookup-flagged :
    (k : String) (c : Dict CacheValue)
    → k ≢ "hasLoaded"
    → lookup k (insert "hasLoaded" (flag true) c) ≡ lookup k c
lookup-flagged k c h =
    ground (arith, eq_iff "hasLoaded" k, lookup-insert k "hasLoaded" (flag true) c)

flag-fold :
    (b : Bool) (us : List CurrencyPairUpdate) (c : Dict CacheValue)
    → All IsPlain us
    → lookup "hasLoaded" c ≡ some (flag b)
    → lookup "hasLoaded" (fold apply_update c us) ≡ some (flag b)
flag-fold b us c h f = lookup-fold "hasLoaded" us c ∙ last_update-plain us _ h ∙ f

update_cache-IsUpdated :
    (b w t : Bool) (us : List CurrencyPairUpdate) (s : ReferenceDataService)
    → All IsPlain us
    → IsFlagged b s
    → let update : CurrencyPairUpdates = record {
      is_state_of_the_world = w;
      is_stale = t;
      currency_pair_updates = us;
    } in
      IsUpdated b us s (update_cache update s).0 (update_cache update s).1
unfolding update_cache
update_cache-IsUpdated b w t [] s h f = record {
  flagged = ground arith;
  cached = λ k n. ground arith;
  announced = ground arith;
}
update_cache-IsUpdated true w t (u ∷ us) s h f =
    let g = flag-fold true (u ∷ us) s.currency_pair_cache h f in
    record {
      flagged = ground arith;
      cached = λ k n. ground (arith, lookup-fold k (u ∷ us) s.currency_pair_cache);
      announced = ground arith;
    }
update_cache-IsUpdated false w t (u ∷ us) s h f =
    let c = fold apply_update s.currency_pair_cache (u ∷ us) in
    let g = flag-fold false (u ∷ us) s.currency_pair_cache h f in
    record {
      flagged =
          ground (arith, lookup-insert "hasLoaded" "hasLoaded" (flag true) c, eq_refl "hasLoaded");
      cached =
          λ k n. ground (arith, lookup-fold k (u ∷ us) s.currency_pair_cache, lookup-flagged k c n);
      announced = ground arith;
    }

is_nonempty-append :
    (xs ys : List CurrencyPairUpdate) → is_nonempty (xs ++ ys) ≡ (is_nonempty xs || is_nonempty ys)
is_nonempty-append [] ys = refl
is_nonempty-append (x ∷ xs) ys = refl

update_all-IsUpdated :
    (b : Bool) (us : List CurrencyPairUpdates) (s : ReferenceDataService)
    → All IsPlain (all_updates us)
    → IsFlagged b s
    → IsUpdated b (all_updates us) s (update_all s us).0 (update_all s us).1
unfolding update_all
update_all-IsUpdated b [] s h f = record {
  flagged = ground arith;
  cached = λ k n. refl;
  announced = ground arith;
}
update_all-IsUpdated b (u ∷ us) s h f =
    let xs = u.currency_pair_updates in
    let (hx, hy) = All-split IsPlain xs (all_updates us) h in
    let one = update_cache-IsUpdated b u.is_state_of_the_world u.is_stale xs s hx f in
    let rest = update_all-IsUpdated (b || is_nonempty xs) us (update_cache u s).0 hy one.flagged in
    record {
      flagged = ground (arith, is_nonempty-append xs (all_updates us), rest.flagged);
      cached = λ k n.
          rest.cached k n
          ∙ ap (λ v. last_update k v (all_updates us)) (one.cached k n)
          ∙ sym (last_update-append k xs (all_updates us) _);
      announced =
          ground (arith, is_nonempty-append xs (all_updates us), one.announced, rest.announced);
    }

new-IsFlagged : IsFlagged false new
unfolding new lookup
new-IsFlagged = refl

lookup-new : (k : String) → k ≢ "hasLoaded" → lookup k new.currency_pair_cache ≡ none
unfolding new lookup
lookup-new k n = ground (arith, eq_iff "hasLoaded" k)

-- What the service should answer for a symbol after some updates.
abbrev pub answer : String → List CurrencyPairUpdate → Result CacheValue
answer symbol [] = throws "Reference data cache hasn't finished loading"
answer symbol (u ∷ us) = elim (last_update symbol none (u ∷ us)) [
  | none ↦ throws ("CurrencyPair with symbol [" <> symbol <> "] is not in the cache.")
  | some v ↦ returns v
]

get_currency_pair-flagged :
    (symbol : String) (us : List CurrencyPairUpdate) (s : ReferenceDataService)
    → IsFlagged (is_nonempty us) s
    → lookup symbol s.currency_pair_cache ≡ last_update symbol none us
    → get_currency_pair symbol s ≡ answer symbol us
unfolding get_currency_pair
get_currency_pair-flagged symbol [] s f e = ground arith
get_currency_pair-flagged symbol (u ∷ us) s f e = ground arith

module _ (us : List CurrencyPairUpdates) (plain : All IsPlain (all_updates us)) where
  -- After any updates of which none is about a pair called `hasLoaded`, the cache answers for every
  -- other symbol with the pair that the last update about it added; it throws if that update
  -- removed the pair or there was none, and for every symbol while no update has arrived.
  pub get_currency_pair-update_all :
      (symbol : String)
      → symbol ≢ "hasLoaded"
      → get_currency_pair symbol (update_all new us).0 ≡ answer symbol (all_updates us)
  get_currency_pair-update_all symbol n =
      let h = update_all-IsUpdated false us new plain new-IsFlagged in
      get_currency_pair-flagged symbol (all_updates us) (update_all new us).0 h.flagged
        (h.cached symbol n ∙ ap (λ v. last_update symbol v (all_updates us)) (lookup-new symbol n))

  -- After any updates of which none is about a pair called `hasLoaded`, the stream of `hasLoaded`
  -- has yielded and completed exactly once if some update arrived, and has said nothing if none
  -- did.
  pub announced-update_all :
      (update_all new us).1
      ≡ (if is_nonempty (all_updates us) then (has_loaded_next ∷ has_loaded_completed ∷ []) else [])
  announced-update_all = (update_all-IsUpdated false us new plain new-IsFlagged).announced
