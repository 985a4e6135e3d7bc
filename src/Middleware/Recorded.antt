-- ===== src/Middleware/Recorded.antt =====
-- internal/observability/metrics.go: which status is counted.
use gearshare.Prelude.{ℕ, ◌≡◌, refl, some, List, [], ◌∷◌, All}
use gearshare.Middleware.{
  Write, header, body, new_recorder, perform, perform_all, answered, Request, Labels, route_pattern,
  http_middleware,
}

abbrev IsBody : Write → Type 0
IsBody body = Unit {0}
IsBody (header s) = ⊥

bodies-keep :
    (ws : List Write) (s n : ℕ)
    → All IsBody ws
    → perform_all ws (record { sent = some s; recorded = n })
      ≡ record { sent = some s; recorded = n }
unfolding perform_all perform
bodies-keep [] s n h = refl
bodies-keep (body ∷ ws) s n h = bodies-keep ws s n h.1
bodies-keep (header c ∷ ws) s n h = absurd h.0

-- A handler that writes its header first and once is counted with the status that the client gets.
pub http_middleware-counts :
    (r : Request) (status : ℕ) (ws : List Write) (counted : List Labels)
    → All IsBody ws
    → http_middleware r (header status ∷ ws) counted
      ≡ record {
        method = r.method;
        path = route_pattern r.pattern r.url_path;
        status = answered (perform_all (header status ∷ ws) new_recorder);
      }
        ∷ counted
unfolding http_middleware perform_all perform
http_middleware-counts r status ws counted h = rw (bodies-keep ws status status h) refl
