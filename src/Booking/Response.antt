-- ===== src/Booking/Response.antt =====
-- internal/booking/response.go, and the bodies of the handlers with it.
pub mod Dates
use gearshare.Prelude.{ℕ, ◌/◌, List, Option}
use gearshare.Prelude.Int.{ℤ}
use gearshare.Model.Booking.{Booking, Status}
use gearshare.Store.{M, ◌>>=◌, pure}
use gearshare.Http.{Response, json, error, Claims}
use gearshare.Http.Date.{format_date}
use gearshare.Booking.Pricing.{day_ns}
use gearshare.Booking.Handler.{Handler, CreateRequest, create}

pub record Body : Type 0 where
  pub id : ℕ
  pub listing_id : ℕ
  pub renter_id : ℕ
  pub start_date : List ℕ
  pub end_date : List ℕ
  pub status : Status
  pub total_price_cents : ℤ
  pub created_at : ℕ

unfoldable pub to_response : Booking → Body
to_response b = record {
  id = b.id;
  listing_id = b.listing_id;
  renter_id = b.renter_id;
  start_date = format_date (b.start_date / day_ns);
  end_date = format_date (b.end_date / day_ns);
  status = b.status;
  total_price_cents = b.total_price_cents;
  created_at = b.created_at;
}

-- An answer as it is written.
abbrev pub written : Response Booking → Response Body
written (json code b) = json code (to_response b)
written (error code message) = error code message

unfoldable pub create_written : Handler → Option Claims → Option CreateRequest → M (Response Body)
create_written h claims req = do r ← create h claims req; pure (written r)
