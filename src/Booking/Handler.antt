-- ===== src/Booking/Handler.antt =====
-- internal/booking/handler.go. The body of a response is the booking row, whose dates the code formats.
use gearshare.Prelude.{ℕ, String, ◌*◌, Bool, Option, none, some, List, if◌then◌else◌}
use gearshare.Prelude.Text.{codes}
use gearshare.Model.Booking.{Booking}
use gearshare.Model.Listing.{Listing}
use gearshare.Model.Event.{push_owner}
use gearshare.Store.{
  M, Result, ok, err, Error, booking_not_found, invalid_transition, listing_unavailable,
  invalid_date_range, ◌>>=◌, ◌>>◌, pure, attempt, emit,
}
use gearshare.Http.{Response, json, error, Claims, parse_int, row_id, parse_date}
use gearshare.Listing.Repository.{get_by_id as get_listing}
use gearshare.Booking.Pricing.{day_ns}
use gearshare.Booking.Repository.{get_by_id, list_for_owner}
use gearshare.Booking.Service.{Service, create_booking}
use gearshare.Booking.History.{Move, perform}

-- The service, and whether there is a notifier and a listing repository.
pub record Handler : Type 0 where
  pub service : Service
  pub has_notifier : Bool

abbrev push : Booking → Result Listing → M (Unit {0})
push b (ok l) = emit (push_owner l.owner_id b)
push b (err e) = pure tt

unfoldable pub notify_owner : Handler → Booking → M (Unit {0})
notify_owner h b =
    if h.has_notifier then (do l ← attempt (get_listing b.listing_id); push b l) else pure tt

pub record CreateRequest : Type 0 where
  pub listing_id : ℕ
  pub start_date : String
  pub end_date : String

abbrev pub create_error : Error → Response Booking
create_error listing_unavailable = error 409 "listing is not available for the requested dates"
create_error invalid_date_range = error 400 "booking: end date must be on or after start date"
create_error _ = error 500 "could not create booking"

abbrev pub created : Handler → Result Booking → M (Response Booking)
created h (err e) = pure (create_error e)
created h (ok b) = do notify_owner h b; pure (json 201 b)

unfoldable pub create : Handler → Option Claims → Option CreateRequest → M (Response Booking)
create h none req = pure (error 401 "authentication required")
create h (some claims) none = pure (error 400 "invalid request body")
create h (some claims) (some req) = elim (parse_date (codes req.start_date)) [
  | none ↦ pure (error 400 "start_date must be YYYY-MM-DD")
  | some start ↦ elim (parse_date (codes req.end_date)) [
    | none ↦ pure (error 400 "end_date must be YYYY-MM-DD")
    | some end ↦ do
      b ← attempt (
          create_booking h.service (record {
            listing_id = req.listing_id;
            renter_id = claims.user_id;
            start_date = start * day_ns;
            end_date = end * day_ns;
          }))
      created h b
  ]
]

abbrev pub transition_error : Error → Response Booking
transition_error booking_not_found = error 404 "booking not found"
transition_error invalid_transition = error 409 "invalid status transition for this booking"
transition_error _ = error 500 "could not update booking"

abbrev pub moved : Handler → Result Booking → M (Response Booking)
moved h (err e) = pure (transition_error e)
moved h (ok b) = do notify_owner h b; pure (json 200 b)

-- Approve, Reject, Cancel, Activate and Complete, by the id in the path. No claims are read.
unfoldable pub transition_handler : Handler → Move → String → M (Response Booking)
transition_handler h m param = elim (parse_int (codes param)) [
  | none ↦ pure (error 400 "invalid booking id")
  | some id ↦ do b ← attempt (perform h.service m (row_id id)); moved h b
]

abbrev pub listed : Result (List Booking) → Response (List Booking)
listed (ok bs) = json 200 bs
listed (err e) = error 500 "could not load bookings"

unfoldable pub list_mine : Option Claims → M (Response (List Booking))
list_mine none = pure (error 401 "authentication required")
list_mine (some claims) = do bs ← attempt (list_for_owner claims.user_id); pure (listed bs)

abbrev pub fetched : Result Booking → Response Booking
fetched (ok b) = json 200 b
fetched (err booking_not_found) = error 404 "booking not found"
fetched (err e) = error 500 "could not fetch booking"

unfoldable pub get : String → M (Response Booking)
get param = elim (parse_int (codes param)) [
  | none ↦ pure (error 400 "invalid booking id")
  | some id ↦ do b ← attempt (get_by_id (row_id id)); pure (fetched b)
]
