-- ===== src/Middleware.antt =====
-- internal/middleware/ratelimit.go, internal/observability/metrics.go and the settings of
-- internal/middleware/breaker.go. net.SplitHostPort is a parameter, and gives the host or nothing.
pub mod Recorded
use gearshare.Prelude.{
  ℕ, zero, suc, ◌+◌, String, Bool, true, false, not, ◌&&◌, Option, none, some, List, [], ◌∷◌, leb,
  ◌==◌, if◌then◌else◌,
}
use gearshare.Prelude.Text.{str_eq}
use gearshare.Cache.RateLimiter.{Redis, allow, passes, burst}

-- The address that chi's middleware resolved, empty where there is none, and the peer of the connection.
pub record Peer : Type 0 where
  pub client_ip : String
  pub remote_addr : String

abbrev host_or : String → Option String → String
host_or fallback none = fallback
host_or fallback (some host) = host

unfoldable pub resolve_client_ip : (String → Option String) → Peer → String
resolve_client_ip split_host_port r =
    if str_eq r.client_ip ""
    then host_or r.remote_addr (split_host_port r.remote_addr)
    else r.client_ip

-- `limiter.Middleware(requests, time.Minute, ResolveClientIP)`, for n requests of one client at one time: how
-- many pass.
abbrev pub limited :
    (String → Option String) → (requests : ℕ) → (n : ℕ) → Peer → (now : ℕ) → Redis → ℕ × Redis
limited split_host_port requests n r now =
    burst n (resolve_client_ip split_host_port r) requests 60 now

-- ReadyToTrip of the breakers.
abbrev pub ready_to_trip : ℕ → Bool
ready_to_trip consecutive_failures = leb 3 consecutive_failures

-- What a handler does with its ResponseWriter: the first status goes to the client, also an implied one.
pub data Write : Type 0 where
  header : ℕ → Write
  body : Write

-- The status that the client gets, and the one that the recorder keeps.
pub record Recorder : Type 0 where
  pub sent : Option ℕ
  pub recorded : ℕ

abbrev pub new_recorder : Recorder
new_recorder = record { sent = none; recorded = 200 }

abbrev first : Option ℕ → ℕ → Option ℕ
first none status = some status
first (some s) status = some s

-- `statusRecorder.WriteHeader`; Write is the underlying one, which sends 200 if nothing was sent.
unfoldable pub perform : Write → Recorder → Recorder
perform (header status) r = record { sent = first r.sent status; recorded = status }
perform body r = record r { sent = first r.sent 200 }

unfoldable pub perform_all : List Write → Recorder → Recorder
unfolding perform
perform_all [] r = r
perform_all (w ∷ ws) r = perform_all ws (perform w r)

-- The status of an answer, once the handler has returned.
abbrev pub answered : Recorder → ℕ
answered r = elim r.sent [ none ↦ 200 | some s ↦ s ]

-- HTTPRequestsTotal: a count for each method, route and status.
pub record Labels : Type 0 where
  pub method : String
  pub path : String
  pub status : ℕ

abbrev pub same_labels : Labels → Labels → Bool
same_labels a b = str_eq a.method b.method && (str_eq a.path b.path && a.status == b.status)

abbrev pub route_pattern : Option String → String → String
route_pattern none url_path = url_path
route_pattern (some pattern) url_path = if str_eq pattern "" then url_path else pattern

pub record Request : Type 0 where
  pub method : String
  pub pattern : Option String  -- of chi's route context
  pub url_path : String

-- HTTPMiddleware: what it counts of a request whose handler writes so.
unfoldable pub http_middleware : Request → List Write → List Labels → List Labels
unfolding perform_all
http_middleware r writes counted =
    record {
      method = r.method;
      path = route_pattern r.pattern r.url_path;
      status = (perform_all writes new_recorder).recorded;
    }
    ∷ counted
