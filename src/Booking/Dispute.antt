-- ===== src/Booking/Dispute.antt =====
-- internal/app/dispute.go. MongoDB is a parameter: the repository of reports, where there is one, gives the
-- id of a new report or fails.
use gearshare.Prelude.{ℕ, String, Bool, true, false, Option, none, some, List, if◌then◌else◌}
use gearshare.Prelude.Text.{codes, str_eq}
use gearshare.Model.Booking.{Booking}
use gearshare.Store.{
  M, Result, ok, err, Error, booking_not_found, invalid_transition, ◌>>=◌, pure, attempt,
}
use gearshare.Http.{Response, json, error, Claims, parse_int, row_id}
use gearshare.Booking.Service.{Service, dispute}

pub record DisputeRequest : Type 0 where
  pub description : String
  pub photo_urls : List String

pub record Report : Type 0 where
  pub booking_id : ℕ
  pub reported_by : ℕ
  pub description : String
  pub photo_urls : List String

-- The body has the booking and the report's id; where the report could not be saved it has a warning.
pub record DisputeBody : Type 0 where
  pub booking : Booking
  pub damage_report_id : Option String
  pub warning : Bool

abbrev pub dispute_error : Error → Response DisputeBody
dispute_error booking_not_found = error 404 "booking not found"
dispute_error invalid_transition = error 409 "booking cannot be disputed from its current status"
dispute_error _ = error 500 "could not dispute booking"

abbrev pub report_of : Claims → DisputeRequest → Booking → Report
report_of claims req b = record {
  booking_id = b.id;
  reported_by = claims.user_id;
  description = req.description;
  photo_urls = req.photo_urls;
}

abbrev pub saved : Booking → Option String → Response DisputeBody
saved b (some id) = json 201 (record { booking = b; damage_report_id = some id; warning = false })
saved b none = json 201 (record { booking = b; damage_report_id = none; warning = true })

abbrev pub disputed :
    Option (Report → Option String)
    → Claims
    → DisputeRequest
    → Result Booking
    → Response DisputeBody
disputed reports claims req (err e) = dispute_error e
disputed none claims req (ok b) =
    json 201 (record { booking = b; damage_report_id = some ""; warning = false })
disputed (some create) claims req (ok b) = saved b (create (report_of claims req b))

abbrev pub with_request :
    Service
    → Option (Report → Option String)
    → Claims
    → ℕ
    → Option DisputeRequest
    → M (Response DisputeBody)
with_request s reports claims id none = pure (error 400 "invalid request body")
with_request s reports claims id (some req) =
    if str_eq req.description ""
    then pure (error 400 "description is required")
    else (attempt (dispute s id) >>= λ b. pure (disputed reports claims req b))

unfoldable pub handle_dispute :
    Service
    → Option (Report → Option String)
    → Option Claims
    → String
    → Option DisputeRequest
    → M (Response DisputeBody)
handle_dispute s reports none param req = pure (error 401 "authentication required")
handle_dispute s reports (some claims) param req = elim (parse_int (codes param)) [
  | none ↦ pure (error 400 "invalid booking id")
  | some n ↦ with_request s reports claims (row_id n) req
]
