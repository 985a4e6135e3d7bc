-- ===== src/Listing/Handler.antt =====
-- internal/listing/handler.go. The payload that is cached is the value whose JSON the code caches.
pub mod Serving
pub mod Cacheable
use gearshare.Prelude.{
  ℕ, String, Bool, true, false, not, ◌&&◌, Option, none, some, List, if◌then◌else◌,
}
use gearshare.Prelude.Int.{ℤ, pos, negsuc, ltb_ℤ, leb_ℤ, pos_part}
use gearshare.Prelude.Text.{codes, str_eq}
use gearshare.Model.Listing.{Listing, FeedItem}
use gearshare.Store.{
  M, Payload, feed_page, listing_detail, Result, ok, err, Error, invalid_input, ◌>>=◌, ◌>>◌, pure,
  when, attempt,
}
use gearshare.Http.{Response, json, error, Claims, parse_int, row_id}
use gearshare.Cache.ListingCache.{get_feed, set_feed, get_detail, set_detail}
use gearshare.Listing.Service as Service

-- The query parameters: what is no number, or out of range, is passed over.
unfoldable pub feed_limit : String → ℕ
unfolding parse_int
feed_limit v = elim (parse_int (codes v)) [
  | none ↦ 20
  | some n ↦ if ltb_ℤ (pos 0) n && leb_ℤ n (pos 100) then pos_part n else 20
]

unfoldable pub feed_offset : String → ℕ
unfolding parse_int
feed_offset v = elim (parse_int (codes v)) [
  | none ↦ 0
  | some n ↦ if leb_ℤ (pos 0) n then pos_part n else 0
]

-- After a miss: the JOIN, whose answer is stored and served.
abbrev pub loaded_feed : Bool → ℕ → ℕ → Result (List FeedItem) → M (Response Payload)
loaded_feed has_cache limit offset (err e) = pure (error 500 "could not load listings")
loaded_feed has_cache limit offset (ok items) = do
  when has_cache (set_feed limit offset items)
  pure (json 200 (feed_page items))

unfoldable pub serve_feed : Bool → ℕ → ℕ → M (Response Payload)
serve_feed has_cache limit offset = do
  items ← attempt (Service.feed limit offset)
  loaded_feed has_cache limit offset items

abbrev pub cached_feed : ℕ → ℕ → Option Payload → M (Response Payload)
cached_feed limit offset none = serve_feed true limit offset
cached_feed limit offset (some body) = pure (json 200 body)

unfoldable pub feed_at : Bool → ℕ → ℕ → M (Response Payload)
feed_at has_cache limit offset =
    if has_cache
    then (get_feed limit offset >>= cached_feed limit offset)
    else serve_feed false limit offset

unfoldable pub feed : Bool → String → String → M (Response Payload)
feed has_cache limit_param offset_param =
    feed_at has_cache (feed_limit limit_param) (feed_offset offset_param)

abbrev pub loaded_detail : Bool → ℕ → Result FeedItem → M (Response Payload)
loaded_detail has_cache id (err e) = pure (error 404 "listing not found")
loaded_detail has_cache id (ok item) = do
  when has_cache (set_detail id item)
  pure (json 200 (listing_detail item))

unfoldable pub serve_detail : Bool → ℕ → M (Response Payload)
serve_detail has_cache id = do
  item ← attempt (Service.get_detail id)
  loaded_detail has_cache id item

abbrev pub cached_detail : ℕ → Option Payload → M (Response Payload)
cached_detail id none = serve_detail true id
cached_detail id (some body) = pure (json 200 body)

unfoldable pub detail : Bool → String → M (Response Payload)
detail has_cache param = elim (parse_int (codes param)) [
  | none ↦ pure (error 400 "invalid listing id")
  | some n ↦
      if has_cache
      then (get_detail (row_id n) >>= cached_detail (row_id n))
      else serve_detail false (row_id n)
]

pub record CreateRequest : Type 0 where
  pub category_id : ℕ
  pub title : String
  pub description : String
  pub price_per_day_cents : ℤ
  pub deposit_cents : ℤ

abbrev pub created : Result Listing → Response Listing
created (ok l) = json 201 l
created (err invalid_input) = error 400 "title and a positive price_per_day_cents are required"
created (err e) = error 500 "could not create listing"

unfoldable pub create : Bool → Option Claims → Option CreateRequest → M (Response Listing)
create has_publisher none req = pure (error 401 "authentication required")
create has_publisher (some claims) none = pure (error 400 "invalid request body")
create has_publisher (some claims) (some req) = do
  l ← attempt (
      Service.create has_publisher (record {
        owner_id = claims.user_id;
        category_id = req.category_id;
        title = req.title;
        description = req.description;
        price_per_day_cents = req.price_per_day_cents;
        deposit_cents = req.deposit_cents;
      }))
  pure (created l)
