-- ===== src/Cache/ListingCache/Freshness.antt =====
-- internal/cache/listing_cache.go: what is found after a store and after an invalidation.
use gearshare.Prelude.{
  ℕ, suc, ◌≡◌, refl, true, false, none, some, List, [], ◌∷◌, arith, if◌then◌else◌, Bool-cases, inl,
  inr,
}
use gearshare.Store.{World, CacheKey, feed, detail, Payload, ok}
use gearshare.Cache.ListingCache.{same_key, lookup, erase, get, set, del, invalidate_detail}

same_key_refl : (k : CacheKey) → same_key k k ≡ true
same_key_refl (feed l o) = ground arith
same_key_refl (detail i) = ground arith

-- Keys that are the same are the same to every lookup.
same_key_trans : (j k l : CacheKey) → same_key j k ≡ true → same_key j l ≡ same_key k l
same_key_trans (feed a b) (feed c d) (feed e f) h = ground (arith, h)
same_key_trans (feed a b) (feed c d) (detail e) h = refl
same_key_trans (feed a b) (detail c) l h = ground (arith, h)
same_key_trans (detail a) (feed c d) l h = ground (arith, h)
same_key_trans (detail a) (detail c) (feed e f) h = refl
same_key_trans (detail a) (detail c) (detail e) h = ground (arith, h)

other : (k l j : CacheKey) → same_key j k ≡ false → same_key j l ≡ true → same_key k l ≡ false
other k l j e d = elim (Bool-cases (same_key k l)) [
  | inr h ↦ h
  | inl h ↦ ground (arith, same_key_trans j l k d, same_key_trans k l k h, same_key_refl k, e)
]

lookup-erase :
    (k l : CacheKey) (m : List (CacheKey × Payload))
    → lookup l (erase k m) ≡ (if same_key k l then none else lookup l m)
unfolding lookup erase
lookup-erase k l [] = ground arith
lookup-erase k l ((j, p) ∷ m) = elim (Bool-cases (same_key j k)) [
  | inl e ↦ ground (arith, e, same_key_trans j k l e, lookup-erase k l m)
  | inr e ↦ elim (Bool-cases (same_key j l)) [
    | inr d ↦ ground (arith, e, d, lookup-erase k l m)
    | inl d ↦ ground (arith, e, d, lookup-erase k l m, other k l j e d)
  ]
]

pub lookup-put :
    (k : CacheKey) (p : Payload) (m : List (CacheKey × Payload)) → lookup k ((k, p) ∷ m) ≡ some p
unfolding lookup
lookup-put k p m = ground (arith, same_key_refl k)

-- With Redis up, a payload that was stored is found, and the other keys are as they were.
pub get-set :
    (k l : CacheKey) (p : Payload) (w : World)
    → ((n : ℕ) → w.redis_fails n ≡ false)
    → (get l (set k p w).1).0 ≡ (if same_key k l then ok (some p) else (get l w).0)
unfolding get set lookup
get-set k l p w up =
    ground (arith, up w.redis_clock, up (suc w.redis_clock), lookup-erase k l w.cache)

-- With Redis up, an invalidation removes the detail of the listing and the first page of twenty, and
-- nothing else: every other page of the feed is served as before.
pub get-invalidate_detail :
    (id : ℕ) (l : CacheKey) (w : World)
    → ((n : ℕ) → w.redis_fails n ≡ false)
    → (get l (invalidate_detail id w).1).0 ≡ (
        if same_key (feed 20 0) l
        then ok none
        else if same_key (detail id) l
        then ok none
        else (get l w).0)
unfolding get invalidate_detail del
get-invalidate_detail id l w up = ground (
  arith,
  up w.redis_clock,
  up (suc w.redis_clock),
  up (suc (suc w.redis_clock)),
  lookup-erase (detail id) l w.cache,
  lookup-erase (feed 20 0) l (erase (detail id) w.cache),
)
