-- ===== src/Notification/Remote.antt =====
-- internal/notification/grpc_client.go with its adapter in cmd/api/main.go, the gRPC server of
-- cmd/notification-service, and what the monolith's effects come to there. Each of the two processes has one
-- credential, as a server and as a client; the network may fail between them.
pub mod Mails
use gearshare.Prelude.{
  ℕ, String, Bool, true, false, Option, none, some, List, [], ◌∷◌, if◌then◌else◌,
}
use gearshare.Model.Event.{Effect, queue_email}
use gearshare.Model.Event as Event
use gearshare.Store.{World}
use gearshare.Auth.Interceptor.{Rpc, unauthenticated, intercept, client_intercept}
use gearshare.Notification.{
  Credentials, State, call_user_service, send_transactional_rpc, handle_email, succeeded,
}

-- `unreachable` is the network from the service to the monolith, and `network_down` that to the service.
module _ (unreachable : World → Bool) (monolith service : Credentials) where
  -- SendTransactional behind the interceptor. The Ack of a call that fails does not reach the client.
  unfoldable pub serve_transactional :
      Option (List (List ℕ)) → ℕ → String → State → Rpc (Unit {0}) × State
  unfolding intercept send_transactional_rpc
  serve_transactional metadata user_id template s =
      let (ack, answer, s') =
        send_transactional_rpc (call_user_service unreachable monolith service) user_id template
          s in
      intercept service.username service.password metadata (λ message. (unauthenticated message, s))
        (answer, s')

  -- The client: whether it gets nil.
  unfoldable pub send_transactional : Bool → ℕ → String → State → Bool × State
  unfolding serve_transactional client_intercept
  send_transactional network_down user_id template s =
      let metadata = some (client_intercept monolith.username monolith.password []) in
      let (r, s') = serve_transactional metadata user_id template s in
      if network_down
      then (false, s)
      else (succeeded (call_user_service unreachable monolith service) r, s')

  -- A job of the queue reaches the consumer's handler, a synchronous notice the server.
  abbrev pub deliver : Bool → Effect → State → State
  deliver network_down (queue_email job) s =
      (handle_email (call_user_service unreachable monolith service) (λ j. some j) job s).1
  deliver network_down (Event.send_transactional user_id template) s =
      (send_transactional network_down user_id template s).1
  deliver network_down _ s = s

  -- Of effects with the newest first.
  unfoldable pub deliver_all : Bool → List Effect → State → State
  deliver_all network_down [] s = s
  deliver_all network_down (e ∷ es) s = deliver network_down e (deliver_all network_down es s)
