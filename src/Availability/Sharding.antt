-- ===== src/Availability/Sharding.antt =====
-- internal/availability/sharding.go: an owner's shard, by FNV-1a over the eight bytes of its id.
pub mod Range
use gearshare.Prelude.{ℕ, zero, suc, ◌*◌, ◌/◌, ◌%◌, List, [], ◌∷◌, if◌then◌else◌}
use gearshare.Prelude.Int.{ℤ, to_word, ltb_ℤ, pos}
use Prim.Native.Nat.{bit_xor}

abbrev pub u32_mod : ℕ
u32_mod = 4294967296

pub record ShardRouter : Type 0 where
  pub shard_count : ℕ  -- uint32

-- `uint32(shardCount)` keeps the low 32 bits of the int.
unfoldable pub new_shard_router : ℤ → ShardRouter
new_shard_router n = record {
  shard_count = to_word (if ltb_ℤ n (pos 1) then pos 1 else n) % u32_mod;
}

-- `byte(ownerID >> (8 * i))` on the bit pattern, for i from 0; writing it at 7 - i makes the last
-- byte written the first of the buffer.
unfoldable pub big_endian : ℕ → ℕ → List ℕ → List ℕ
big_endian zero word buf = buf
big_endian (suc left) word buf = big_endian left (word / 256) (word % 256 ∷ buf)

-- hash/fnv: New32a and Write.
abbrev pub fnv_offset : ℕ
fnv_offset = 2166136261

abbrev pub fnv_prime : ℕ
fnv_prime = 16777619

unfoldable pub fnv_write : ℕ → List ℕ → ℕ
fnv_write h [] = h
fnv_write h (b ∷ bs) = fnv_write (bit_xor h b * fnv_prime % u32_mod) bs

-- A count of 0 is a run-time panic of Go's `%`; here it is the `%` of the naturals.
unfoldable pub shard_for : ShardRouter → ℤ → ℕ
unfolding big_endian fnv_write to_word
shard_for r owner = fnv_write fnv_offset (big_endian 8 (to_word owner) []) % r.shard_count
