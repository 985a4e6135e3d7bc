-- ===== src/Cache.antt =====
-- internal/cache: the listing cache and the rate limiter, over Redis commands that may fail.
pub mod ListingCache
pub mod RateLimiter
