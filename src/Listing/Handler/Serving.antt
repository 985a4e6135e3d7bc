-- ===== src/Listing/Handler/Serving.antt =====
-- internal/listing/handler.go: the bounds of a page, and what the cache changes about it.
use gearshare.Prelude.{
  ℕ, suc, ◌≤◌, ◌≡◌, ap, ◌∙◌, String, true, false, some, arith, Option-cases, inl, inr,
}
use gearshare.Prelude.Int.{pos, negsuc}
use gearshare.Prelude.Text.{codes}
use gearshare.Store.{World, Result-cases, ok, Payload, feed_page, feed as feed_key, query}
use gearshare.Http.{json, parse_int}
use gearshare.Cache.ListingCache.{lookup, erase, get_feed, set_feed}
use gearshare.Cache.ListingCache.Freshness.{lookup-put}
use gearshare.Listing.Service as Service
use gearshare.Listing.Handler.{feed_limit, serve_feed, feed_at}

-- Whatever text a request has for the limit, a page has between 1 and 100 rows.
pub feed_limit-bounds : (v : String) → (1 ≤ feed_limit v) × (feed_limit v ≤ 100)
unfolding feed_limit
feed_limit-bounds v = elim (Option-cases (parse_int (codes v))) [
  | inl e ↦ ground (arith, e)
  | inr (pos n, e) ↦ ground (arith, e)
  | inr (negsuc n, e) ↦ ground (arith, e)
]

feed-keeps :
    (limit offset : ℕ) (w : World)
    → let v = (Service.feed limit offset w).1 in
      (v.cache ≡ w.cache) × (v.redis_fails ≡ w.redis_fails) × (v.redis_clock ≡ w.redis_clock)
unfolding Service.feed query
feed-keeps limit offset w = ground arith

-- What a page that was served leaves in the cache.
serve_feed-stored :
    (limit offset : ℕ) (w : World) (body : Payload)
    → ((n : ℕ) → w.redis_fails n ≡ false)
    → (serve_feed true limit offset w).0 ≡ ok (json 200 body)
    → lookup (feed_key limit offset) (serve_feed true limit offset w).1.cache ≡ some body
unfolding serve_feed set_feed
serve_feed-stored limit offset w body up h =
    let v = (Service.feed limit offset w).1 in
    let k = feed-keeps limit offset w in
    elim (Result-cases (Service.feed limit offset w).0) [
      | inr (e, p) ↦ ground (arith, p, h)
      | inl (items, p) ↦ ground (
        arith,
        p,
        h,
        k,
        up v.redis_clock,
        lookup-put (feed_key limit offset) (feed_page items)
            (erase (feed_key limit offset) v.cache),
      )
    ]

feed_at-stored :
    (limit offset : ℕ) (w : World) (body : Payload)
    → ((n : ℕ) → w.redis_fails n ≡ false)
    → (feed_at true limit offset w).0 ≡ ok (json 200 body)
    → lookup (feed_key limit offset) (feed_at true limit offset w).1.cache ≡ some body
unfolding feed_at get_feed
feed_at-stored limit offset w body up h =
    elim (Option-cases (lookup (feed_key limit offset) w.cache)) [
      | inr (p, e) ↦ ground (arith, e, h, up w.redis_clock)
      | inl e ↦ ground (
        arith,
        e,
        h,
        up w.redis_clock,
        serve_feed-stored limit offset (record w { redis_clock = suc w.redis_clock }) body up,
      )
    ]

-- With Redis up, a page that was served is served again as it was, without a statement, to every request
-- for it that finds the cache as the first one left it, whatever the tables have become by then.
pub feed_at-again :
    (limit offset : ℕ) (w : World) (body : Payload)
    → ((n : ℕ) → w.redis_fails n ≡ false)
    → (feed_at true limit offset w).0 ≡ ok (json 200 body)
    → (v : World) → v.cache ≡ (feed_at true limit offset w).1.cache
    → v.redis_fails ≡ w.redis_fails
    → ((feed_at true limit offset v).0 ≡ ok (json 200 body))
      × ((feed_at true limit offset v).1.clock ≡ v.clock)
unfolding feed_at get_feed
feed_at-again limit offset w body up h v same working =
    let kept = feed_at-stored limit offset w body up h in
    let found : lookup (feed_key limit offset) v.cache ≡ some body =
      ap (lookup (feed_key limit offset)) same ∙ kept in
    let fine : v.redis_fails v.redis_clock ≡ false =
      ap (λ f. f v.redis_clock) working ∙ up v.redis_clock in
    ground (arith, found, fine)
