-- ===== src/Search/Remote/EndToEnd.antt =====
-- internal/search, internal/auth/grpc.go and cmd/search-indexer together: where the answer of a search is from.
use gearshare.Prelude.{
  ◌≡◌, refl, ap, String, Bool, not, ◌&&◌, none, some, List, ◌++◌, ◌∷◌, map, arith, All, same,
  Bool-cases, inl, inr, if◌then◌else◌,
}
use gearshare.Prelude.Int.{ℤ, pos, negsuc}
use gearshare.Store.{World, ok}
use gearshare.Http.{json}
use gearshare.Codec.Base64.RoundTrip.{IsByte}
use gearshare.Auth.Interceptor.{unauthenticated}
use gearshare.Auth.Interceptor.Agreement.{intercept-client}
use gearshare.Search.{Hit, elasticsearch, from_source, wire_limit, search_limit, search, handler}
use gearshare.SearchIndexer
use gearshare.SearchIndexer.{Elastic, accepted, hit_of, default_limit, search_rpc}
use gearshare.Search.Remote.{Credential, Line, serve_search, results_of, call, execute_search}

pub record IsText (c : Credential) : Type 0 where
  pub name : All IsByte c.username
  pub word : All IsByte c.password

module _ {S : Type 0} (elastic : Elastic S) (server client : Credential) where
  -- The two processes were given the same pair, up to where the colon stands.
  abbrev pub agree : Bool
  agree =
      same (client.username ++ b':' ∷ client.password) (server.username ++ b':' ∷ server.password)

  -- Whether Elasticsearch is asked, and answers.
  abbrev pub served : Line → S → String → ℤ → Bool
  served line s text limit =
      not line.breaker_open
      && not line.network_down
      && agree
      && elastic.lets_through s
      && accepted (elastic.multi_match text limit s).0

  abbrev pub documents : S → String → ℤ → List Hit
  documents s text limit = map (hit_of elastic) (elastic.multi_match text limit s).1

  wire-default : (n : ℤ) → default_limit elastic (wire_limit n) ≡ wire_limit n
  unfolding wire_limit
  wire-default (pos n) = ground arith
  wire-default (negsuc n) = ground arith

  call-lem :
      (s : S) (text : String) (limit : ℤ)
      → IsText server
      → IsText client
      → call elastic server client text limit s ≡ (
          if agree
          then search_rpc elastic text limit s
          else (unauthenticated "invalid credentials", s))
  unfolding serve_search
  call-lem s text limit hs hc =
      intercept-client server.username server.password client.username client.password
        (λ m. (unauthenticated m, s)) (search_rpc elastic text limit s) hs.name hs.word hc.name
        hc.word

  execute_search-lem :
      (line : Line) (s : S) (text : String) (n : ℤ)
      → IsText server
      → IsText client
      → execute_search elastic server client line s text (wire_limit n) ≡ (
          if served line s text (wire_limit n)
          then some (documents s text (wire_limit n))
          else none)
  unfolding execute_search search_rpc SearchIndexer.search
  execute_search-lem line s text n hs hc =
      let answered = call-lem s text (wire_limit n) hs hc in
      let kept = wire-default n in
      elim (Bool-cases agree) [
        | inr a ↦ ground (arith, a, ap (results_of elastic server client) answered)
        | inl a ↦ ground (arith, a, ap (results_of elastic server client) answered, kept)
      ]

  -- A search is answered 200 with the documents that Elasticsearch finds, marked as from it and with no statement
  -- to MySQL, if neither breaker is open, the network holds, the two processes have the same credential and
  -- Elasticsearch takes the query; in every other case it is answered exactly as by a monolith that has no client
  -- of search-indexer. User names and passwords are bytes.
  pub handler-remote :
      (like : String → String → Bool) (line : Line) (s : S) (text limit_param : String) (w : World)
      → IsText server
      → IsText client
      → handler like (some (execute_search elastic server client line s)) text limit_param w ≡ (
          let limit = wire_limit (pos (search_limit limit_param)) in
          if served line s text limit
          then (ok (json 200 (from_source elasticsearch (documents s text limit))), w)
          else handler like none text limit_param w)
  unfolding handler search
  handler-remote like line s text limit_param w hs hc =
      let n = pos (search_limit limit_param) in
      let e = execute_search-lem line s text n hs hc in
      elim (Bool-cases (served line s text (wire_limit n))) [
        | inl p ↦ rw (e, p) refl
        | inr p ↦ rw (e, p) refl
      ]
