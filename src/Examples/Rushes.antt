-- ===== src/Examples/Rushes.antt =====
-- The theorems on a message that is overtaken and on the two limits of one client, applied.
use gearshare.Prelude.{
  ℕ, suc, ◌+◌, ◌-◌, ◌≡◌, refl, String, true, false, Option, none, some, List, [], ◌∷◌, arith,
  count_where,
}
use Prim.Native.Nat.{min}
use gearshare.Middleware.{Peer, limited}
use gearshare.Api.{auth_limit, api_limit}
use gearshare.Api.Limits.{counted, limits-shared}
use gearshare.Eventbus.{Consumer, new_consumer, Reach, here, next, fetches}
use gearshare.Eventbus.Overtaken.{same, overtaken, overtaken-lost}
use gearshare.Examples.Edges.{redis}
use gearshare.Examples.Messages.{sum_handler}
use gearshare.Examples.Processes.{services}

-- A message is its own offset.
abbrev at : ℕ → ℕ
at d = d

abbrev resume : ℕ → List ℕ → ℕ
resume start [] = start
resume start (d ∷ ds) = suc d

abbrev restarted : Consumer ℕ ℕ
restarted = record (new_consumer 6) { held = some 2; fetched = 2 ∷ [] }

overtaken-lost_example :
    Reach sum_handler (new_consumer 5) (overtaken sum_handler at resume 5 0 1)
    × ((overtaken sum_handler at resume 5 0 1).failed ≡ 0 ∷ [])
    × ((overtaken sum_handler at resume 5 0 1).committed ≡ 1 ∷ [])
    × (count_where (same sum_handler at resume 0) restarted.fetched ≡ 0)
    × (count_where (same sum_handler at resume 0) restarted.succeeded ≡ 0)
overtaken-lost_example =
    overtaken-lost sum_handler at resume (record { behind = λ start. λ d. λ ds. refl }) 0 5 5 6 0 1
      restarted (omega arith) refl refl (next here (fetches 2 (new_consumer 6) refl refl))
      (omega arith, tt)

abbrev no_host : String → Option String
no_host address = none

abbrev client : Peer
client = record { client_ip = "10.0.0.1"; remote_addr = "10.0.0.9:4000" }

limits-shared_example :
    ((limited no_host
        (auth_limit (services true)).requests
        5
        client
        170
        (limited no_host (api_limit (services true)).requests 18 client 120 (redis false)).1).0
      ≡ min 5 (20 - (18 + counted no_host client 120 (redis false))))
    × ((limited no_host (api_limit (services true)).requests 18 client 120 (redis false)).0
        ≡ min 18 (300 - counted no_host client 120 (redis false)))
limits-shared_example =
    limits-shared no_host (services true) 18 5 client 120 170 (redis false) (omega arith)
      (λ i. refl)
