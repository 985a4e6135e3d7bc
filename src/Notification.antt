-- ===== src/Notification.antt =====
-- cmd/notification-service/main.go, and GetUserContact of internal/app/grpc_server.go, which it calls with the
-- credential of internal/auth/grpc.go. JSON is not modelled: `decode` is what json.Unmarshal makes of a
-- delivery. The e-mail is logged in the code, and here kept, the latest first.
pub mod Emails
pub mod Remote
use gearshare.Prelude.{
  ℕ, String, Bool, true, false, Option, none, some, List, [], ◌∷◌, if◌then◌else◌,
}
use gearshare.Model.Event.{EmailJob}
use gearshare.Model.User.{User}
use gearshare.Store.{World, Result, ok, err}
use gearshare.User.{get_by_id}
use gearshare.Auth.Interceptor.{
  Rpc, reply, unauthenticated, not_found, unavailable, intercept, client_intercept,
}

pub record UserContact : Type 0 where
  pub user_id : ℕ
  pub display_name : String
  pub email : String

abbrev pub contact_of : User → UserContact
contact_of u = record { user_id = u.id; display_name = u.display_name; email = u.email }

-- The monolith's side: any error is "user not found".
abbrev contact_answer : Result User → Rpc UserContact
contact_answer (ok u) = reply (contact_of u)
contact_answer (err e) = not_found "user not found"

unfoldable pub get_user_contact : ℕ → World → Rpc UserContact × World
get_user_contact user_id w = let (r, w') = get_by_id user_id w in (contact_answer r, w')

-- The credentials that the server expects and that the client has.
pub record Credentials : Type 0 where
  pub username : List ℕ
  pub password : List ℕ

-- The call as the two interceptors let it through.
abbrev pub intercepted : Credentials → Credentials → ℕ → World → Rpc UserContact × World
intercepted server client user_id =
    intercept server.username server.password
      (some (client_intercept client.username client.password []))
      (λ message. λ w. (unauthenticated message, w)) (get_user_contact user_id)

-- The call from one process to the other. `network_down` says when the monolith cannot be reached, which ends the
-- call with an error of the transport.
unfoldable pub call_user_service :
    (network_down : World → Bool) → Credentials → Credentials → ℕ → World → Rpc UserContact × World
call_user_service network_down server client user_id w =
    let answer = intercepted server client user_id w in
    if network_down w then (unavailable "connection error", w) else answer

pub record Mail : Type 0 where
  pub to : String
  pub template : String

-- The monolith's stores, and the mails that went out.
pub record State : Type 0 where
  pub world : World
  pub mails : List Mail

module _ (user_client : ℕ → World → Rpc UserContact × World) where
  abbrev sent : String → Rpc UserContact → World → List Mail → Rpc (Unit {0}) × State
  sent template (reply c) w mails =
      (reply tt, record { world = w; mails = record { to = c.email; template = template } ∷ mails })
  sent template (unauthenticated m) w mails =
      (unauthenticated m, record { world = w; mails = mails })
  sent template (not_found m) w mails = (not_found m, record { world = w; mails = mails })
  sent template (unavailable m) w mails = (unavailable m, record { world = w; mails = mails })

  unfoldable pub send_transactional : ℕ → String → State → Rpc (Unit {0}) × State
  send_transactional user_id template s =
      let (contact, w) = user_client user_id s.world in sent template contact w s.mails

  abbrev pub succeeded : Rpc (Unit {0}) → Bool
  succeeded (reply _) = true
  succeeded _ = false

  -- The `Ack` of the gRPC method, beside the error.
  unfoldable pub send_transactional_rpc : ℕ → String → State → Bool × Rpc (Unit {0}) × State
  send_transactional_rpc user_id template s =
      let (r, s') = send_transactional user_id template s in (succeeded r, r, s')

  abbrev job_result : Option EmailJob → State → Bool × State
  job_result none s = (false, s)
  job_result (some job) s =
      let (r, s') = send_transactional job.renter_id job.template s in (succeeded r, s')

  -- The handler of the queue: whether it returns nil.
  unfoldable pub handle_email : {D : Type 0} → (D → Option EmailJob) → D → State → Bool × State
  handle_email decode d s = job_result (decode d) s
