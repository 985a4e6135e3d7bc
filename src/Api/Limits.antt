-- ===== src/Api/Limits.antt =====
-- cmd/api/main.go with internal/cache/ratelimiter.go: the two rate limits of one client.
use gearshare.Prelude.{ℕ, ◌+◌, ◌-◌, ◌/◌, ◌≡◌, ap, ◌∙◌, String, false, Option}
use Prim.Native.Nat.{min}
use gearshare.Cache.RateLimiter.{Redis, count_of, burst}
use gearshare.Cache.RateLimiter.Window.{key_at, burst-admits, burst-counts, burst-same_window}
use gearshare.Middleware.{Peer, resolve_client_ip, limited}
use gearshare.Api.{Services, auth_limit, api_limit}

module _ (split_host_port : String → Option String) where
  -- What is counted of a client in the minute.
  abbrev pub counted : Peer → ℕ → Redis → ℕ
  counted r now redis = count_of (key_at (resolve_client_ip split_host_port r) 60 now) redis.counts

  -- In Redis the two limits count under one key, so that the requests of one client to the other routes use up its
  -- room to log in: without failures, after n of them at one time, of k requests to log in or to register at
  -- another time of the same minute as many pass as 20 leaves room for behind the n and what was counted before,
  -- and from 20 requests on none; of the n as many pass as 300 leaves room for.
  pub limits-shared :
      (up : Services) (n k : ℕ) (r : Peer) (now later : ℕ) (redis : Redis)
      → later / 60 ≡ now / 60
      → ((i : ℕ) → redis.fails i ≡ false)
      → let browsed = (limited split_host_port (api_limit up).requests n r now redis).1 in
        ((limited split_host_port (auth_limit up).requests k r later browsed).0
          ≡ min k (20 - (n + counted r now redis)))
        × ((limited split_host_port (api_limit up).requests n r now redis).0
            ≡ min n (300 - counted r now redis))
  limits-shared up n k r now later redis minute quiet =
      let key = resolve_client_ip split_host_port r in
      let browsed = (burst n key 300 60 now redis).1 in
      let (c, f) = burst-counts n key 300 60 now redis quiet in
      (
        ap (λ t. t.0) (burst-same_window k key 20 60 now later browsed minute)
            ∙ burst-admits k key 20 60 now browsed (λ i. ap (λ g. g i) f ∙ quiet i)
            ∙ ap (λ t. min k (20 - t)) c,
        burst-admits n key 300 60 now redis quiet,
      )
