-- ===== src/Availability/Sharding/Range.antt =====
-- internal/availability/sharding.go: every owner has a shard.
use gearshare.Prelude.{ℕ, ◌<◌, ◌≡◌, [], arith}
use gearshare.Prelude.Int.{ℤ, pos, negsuc, to_word}
use gearshare.Availability.Sharding.{
  new_shard_router, big_endian, shard_for, u32_mod, fnv_write, fnv_offset,
}

-- A router of any number of shards that fits a uint32 gives every owner one of its shards, and a router
-- of a count that is not positive is one of a single shard.
pub shard_for-bounds :
    (k m : ℕ) (owner : ℤ)
    → 0 < k
    → k < u32_mod
    → (shard_for (new_shard_router (pos k)) owner < k)
      × (shard_for (new_shard_router (negsuc m)) owner ≡ 0)
      × (shard_for (new_shard_router (pos 0)) owner ≡ 0)
unfolding shard_for new_shard_router
shard_for-bounds k m owner p q =
    let h = fnv_write fnv_offset (big_endian 8 (to_word owner) []) in
    (ground arith, ground arith, ground arith)
