-- ===== src/Partner.antt =====
-- internal/partner/handler.go. JSON is not modelled: a body is the payload, or nothing where it does not decode.
-- The line of the log is kept: the owner, the booking and the type of the event.
use gearshare.Prelude.{ℕ, String, Option, none, some}
use gearshare.Http.{Response, json, error}

pub record InsuranceWebhookPayload : Type 0 where
  pub booking_id : ℕ
  pub event_type : String
  pub policy_ref : String

pub record Logged : Type 0 where
  pub owner : String
  pub booking : ℕ
  pub event : String

-- `owner, _ := auth.APIKeyOwnerFromContext(…)`
abbrev owner_or_empty : Option String → String
owner_or_empty none = ""
owner_or_empty (some owner) = owner

unfoldable pub insurance_webhook :
    Option String → Option InsuranceWebhookPayload → Response String × Option Logged
insurance_webhook owner none = (error 400 "invalid webhook payload", none)
insurance_webhook owner (some payload) = (
  json 202 "received",
  some (record {
    owner = owner_or_empty owner;
    booking = payload.booking_id;
    event = payload.event_type;
  }),
)
