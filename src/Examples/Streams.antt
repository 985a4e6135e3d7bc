-- ===== src/Examples/Streams.antt =====
-- Passwords, streams and pools: each theorem that has hypotheses, applied.
use gearshare.Prelude.{
  ℕ, String, ◌≡◌, refl, Bool, true, Option, some, List, [], ◌∷◌, length, arith, ◌==◌,
}
use gearshare.Prelude.Int.{ℤ, pos}
use gearshare.Auth.Scrypt.{ScryptHasher, hash, matches, verify}
use gearshare.Auth.Scrypt.Verified.{verify-hash}
use gearshare.Config.{MysqlConfig}
use gearshare.Store.Pools.{Pool, Pools}
use gearshare.Realtime.Hub.{new_hub, owner}
use gearshare.Realtime.Hub.Delivery.{Sound}
use gearshare.Realtime.Streams.{
  connected, Stream, Event, published, turn, done, reader_failed, on_events, open_stream,
}
use gearshare.Realtime.Streams.Closed.{Clean, on_events-Clean}

-- A key of one byte, the length of the password.
abbrev sized : List ℕ → List ℕ → ℤ → ℤ → ℤ → ℕ → Option (List ℕ)
sized password salt n r p len = some (length password ∷ [])

abbrev short_keys : ScryptHasher
short_keys = record { cost = pos 16; block_size = pos 8; parallelism = pos 1; key_len = 1 }

verify-hash_example :
    (text : List ℕ) × (hash sized short_keys (104 ∷ 105 ∷ []) (some (7 ∷ 200 ∷ [])) ≡ some text)
    × (verify sized (104 ∷ []) text ≡ matches sized (2 ∷ []) (some (1 ∷ [])))
    × (verify sized (104 ∷ 105 ∷ []) text ≡ true)
verify-hash_example =
    verify-hash short_keys (7 ∷ 200 ∷ []) (2 ∷ []) (omega arith) (omega arith) (omega arith)
      (omega arith) (omega arith) sized (104 ∷ 105 ∷ []) (104 ∷ []) refl refl

new_hub-Sound : Sound new_hub
new_hub-Sound = record { channels = tt; distinct = tt; below = tt }

-- The second update cannot be written, and the reader fails after that.
abbrev second_fails : ℕ → Bool
second_fails n = n == 2

abbrev goings_on : List Event
goings_on =
    published (owner 1) (7 ∷ [])
    ∷ published (owner 1) (8 ∷ [])
    ∷ turn
    ∷ turn
    ∷ reader_failed
    ∷ done
    ∷ []

on_events-Clean_example :
    (s : Stream) × (on_events second_fails goings_on
        (some (open_stream second_fails (owner 1) new_hub (connected ∷ [])))
      ≡ some s)
    × Clean s
on_events-Clean_example =
    on_events-Clean second_fails (owner 1) new_hub (connected ∷ []) goings_on new_hub-Sound

-- No replica is set, and the second pool does not close well.
abbrev one_server : MysqlConfig
one_server = record {
  primary_dsn = "app@tcp(db)/gearshare";
  replica_dsn = "";
  max_open_conns = pos 25;
  max_idle_conns = pos 10;
}

abbrev no_pools : Pools
no_pools = record { open_pools = []; next = 0 }

abbrev all_connect : ℕ → String → Bool
all_connect n dsn = true

abbrev second_stays : Pool → Bool
second_stays p = p.number == 1
