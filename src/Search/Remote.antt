-- ===== src/Search/Remote.antt =====
-- A search on its way from the monolith to Elasticsearch and back: internal/search/grpc_client.go and service.go,
-- internal/auth/grpc.go on both sides, and cmd/search-indexer. The breaker may be open and the network may fail.
pub mod EndToEnd
use gearshare.Prelude.{
  ℕ, String, Bool, true, false, not, ◌&&◌, Option, none, some, List, [], if◌then◌else◌,
}
use gearshare.Prelude.Int.{ℤ}
use gearshare.Auth.Interceptor.{
  Rpc, reply, unauthenticated, not_found, unavailable, intercept, client_intercept,
}
use gearshare.Search.{Hit}
use gearshare.SearchIndexer.{Elastic, search_rpc}

-- The pair of INTERNAL_BASIC_USER and INTERNAL_BASIC_PASS of a process.
pub record Credential : Type 0 where
  pub username : List ℕ
  pub password : List ℕ

-- The monolith's breaker and the network, at the time of the call.
pub record Line : Type 0 where
  pub breaker_open : Bool
  pub network_down : Bool

module _ {S : Type 0} (elastic : Elastic S) (server client : Credential) where
  -- The server's handler behind its interceptor.
  unfoldable pub serve_search : Option (List (List ℕ)) → String → ℤ → S → Rpc (List Hit) × S
  unfolding intercept search_rpc
  serve_search metadata text limit s =
      intercept server.username server.password metadata (λ m. (unauthenticated m, s))
        (search_rpc elastic text limit s)

  abbrev pub call : String → ℤ → S → Rpc (List Hit) × S
  call = serve_search (some (client_intercept client.username client.password []))

  -- `breaker.Execute` answers with the results, or with any of the errors.
  abbrev pub results_of : Rpc (List Hit) × S → Option (List Hit)
  results_of (reply hits, s) = some hits
  results_of (unauthenticated m, s) = none
  results_of (not_found m, s) = none
  results_of (unavailable m, s) = none

  unfoldable pub execute_search : Line → S → String → ℤ → Option (List Hit)
  unfolding serve_search
  execute_search line s text limit =
      if line.breaker_open
      then none
      else if line.network_down
      then none
      else results_of (call text limit s)
