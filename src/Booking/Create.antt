-- ===== src/Booking/Create.antt =====
-- internal/booking/tx.go: the booking row and its block in one transaction.
pub mod Atomic
pub mod Outcome
pub mod Overlap
pub mod Answer
use gearshare.Prelude.{ℕ, ltb}
use gearshare.Prelude.Int.{ℤ}
use gearshare.Model.Booking.{Booking, requested}
use gearshare.Model.Availability.{booked}
use gearshare.Store.{M, Result, ok, err, ◌>>=◌, ◌>>◌, pure, fail, fail_if, listing_unavailable}
use gearshare.Store.Tx.{within_transaction}
use gearshare.Availability.{count_overlapping, insert_block}
use gearshare.Listing.Repository.{get_by_id as get_listing}
use gearshare.Booking.Pricing.{calculate_total_price_cents}
use gearshare.Booking.Repository.{create_in_tx, get_by_id}

pub record CreateBookingInput : Type 0 where
  pub listing_id : ℕ
  pub renter_id : ℕ
  pub start_date : ℕ
  pub end_date : ℕ

-- The id and the times are the database's.
abbrev pub new_booking : CreateBookingInput → ℤ → Booking
new_booking input total_price = record {
  id = 0;
  listing_id = input.listing_id;
  renter_id = input.renter_id;
  start_date = input.start_date;
  end_date = input.end_date;
  status = requested;
  total_price_cents = total_price;
  created_at = 0;
  updated_at = 0;
}

abbrev pub of_result : {A : Type 0} → Result A → M A
of_result (ok a) = pure a
of_result (err e) = fail e

-- The function that runs inside the transaction; it returns `created`.
unfoldable pub create_body : CreateBookingInput → ℤ → M Booking
create_body input total_price = do
  overlapping ← count_overlapping input.listing_id input.start_date input.end_date
  fail_if (ltb 0 overlapping) listing_unavailable
  booking_id ← create_in_tx (new_booking input total_price)
  _ ← insert_block input.listing_id booking_id input.start_date input.end_date booked
  pure (record (new_booking input total_price) { id = booking_id })

unfoldable pub create_atomic : CreateBookingInput → M Booking
create_atomic input = do
  l ← get_listing input.listing_id
  total_price ←
      of_result (calculate_total_price_cents input.start_date input.end_date l.price_per_day_cents)
  created ← within_transaction (create_body input total_price)
  get_by_id created.id
