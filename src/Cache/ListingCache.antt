-- ===== src/Cache/ListingCache.antt =====
-- internal/cache/listing_cache.go. A key is the pair or the number that its text is formatted from;
-- an entry that its TTL has removed is a GET that fails.
pub mod Freshness
use gearshare.Prelude.{
  ℕ, suc, Bool, true, false, not, ◌&&◌, Option, none, some, List, [], ◌∷◌, ◌==◌, if◌then◌else◌,
  select, find,
}
use gearshare.Model.Listing.{FeedItem}
use gearshare.Store.{
  World, CacheKey, feed, detail, Payload, feed_page, listing_detail, M, ok, ◌>>=◌, ◌>>◌, pure,
}

abbrev pub same_key : CacheKey → CacheKey → Bool
same_key (feed l o) (feed l' o') = l == l' && o == o'
same_key (detail i) (detail i') = i == i'
same_key _ _ = false

abbrev pub tick_redis : World → World
tick_redis w = record w { redis_clock = suc w.redis_clock }

-- The lookup by key, and the removal of a key.
unfoldable pub lookup : CacheKey → List (CacheKey × Payload) → Option Payload
lookup k [] = none
lookup k ((j, p) ∷ m) = if same_key j k then some p else lookup k m

unfoldable pub erase : CacheKey → List (CacheKey × Payload) → List (CacheKey × Payload)
erase k [] = []
erase k ((j, p) ∷ m) = let rest = erase k m in if same_key j k then rest else (j, p) ∷ rest

-- `get`, where an error of Redis is a miss.
unfoldable pub get : CacheKey → M (Option Payload)
get k w = (ok (if w.redis_fails w.redis_clock then none else lookup k w.cache), tick_redis w)

-- `set`, where an error is ignored.
unfoldable pub set : CacheKey → Payload → M (Unit {0})
set k p w = (
  ok tt,
  if w.redis_fails w.redis_clock
      then tick_redis w
      else record (tick_redis w) { cache = (k, p) ∷ erase k w.cache },
)

unfoldable pub del : CacheKey → M (Unit {0})
del k w = (
  ok tt,
  if w.redis_fails w.redis_clock
      then tick_redis w
      else record (tick_redis w) { cache = erase k w.cache },
)

unfoldable pub get_feed : ℕ → ℕ → M (Option Payload)
unfolding get
get_feed limit offset = get (feed limit offset)

unfoldable pub set_feed : ℕ → ℕ → List FeedItem → M (Unit {0})
unfolding set
set_feed limit offset items = set (feed limit offset) (feed_page items)

unfoldable pub get_detail : ℕ → M (Option Payload)
unfolding get
get_detail id = get (detail id)

unfoldable pub set_detail : ℕ → FeedItem → M (Unit {0})
unfolding set
set_detail id item = set (detail id) (listing_detail item)

unfoldable pub invalidate_detail : ℕ → M (Unit {0})
invalidate_detail id = do del (detail id); del (feed 20 0)
