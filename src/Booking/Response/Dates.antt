-- ===== src/Booking/Response/Dates.antt =====
-- internal/booking/handler.go and response.go: what a client that makes a booking gets.
use gearshare.Prelude.{
  ℕ, ◌+◌, ◌-◌, ◌<◌, false, ◌*◌, ◌/◌, ◌≡◌, refl, ap, ◌∙◌, none, some, arith, inl, inr, if◌then◌else◌,
  ltb, find, ◌==◌, Bool-cases,
}
use Prim.Native.Nat.{min}
use gearshare.Prelude.Text.{codes}
use gearshare.Prelude.Int.{pos, ◌*ℤ◌}
use gearshare.Model.Listing.{Listing}
use gearshare.Model.Booking.{Booking, requested}
use gearshare.Store.{World, Result, ok, err, Result-cases, reader}
use gearshare.Http.{Response, json, error, Claims, parse_date}
use gearshare.Http.Date.{format_date}
use gearshare.Http.Date.RoundTrip.{format_date-parse_date}
use gearshare.Listing.Repository.{get_by_id as get_listing}
use gearshare.Booking.Pricing.{day_ns, nights_between}
use gearshare.Booking.Pricing.Exact.{nights_between_days, total_exact}
use gearshare.Booking.Create.{CreateBookingInput, create_atomic}
use gearshare.Booking.Create.Answer.{is_booked, create_atomic-answer}
use gearshare.Booking.Service.{Service, create_booking, invalidate_listing_cache}
use gearshare.Model.Event.{booking_created}
use gearshare.Booking.Service.Lifecycle.{invalidate-Passes, publish-Passes}
use gearshare.Booking.Handler.{Handler, CreateRequest, create_error, notify_owner, create, created}
use gearshare.Booking.Response.{Body, to_response, create_written}

-- What follows the transaction changes neither the answer nor whether there is one.
pub create_booking-answer :
    (s : Service) (input : CreateBookingInput) (w : World)
    → (create_booking s input w).0 ≡ (create_atomic input w).0
unfolding create_booking
create_booking-answer s input w =
    let v = (create_atomic input w).1 in
    elim (Result-cases (create_atomic input w).0) [
      | inl (b, p) ↦ ground (
        arith,
        p,
        invalidate-Passes s b.listing_id v,
        publish-Passes s booking_created b (invalidate_listing_cache s b.listing_id v).1,
      )
      | inr (e, p) ↦ ground (arith, p)
    ]

abbrev pub input_of : Claims → CreateRequest → ℕ → ℕ → CreateBookingInput
input_of claims req start end = record {
  listing_id = req.listing_id;
  renter_id = claims.user_id;
  start_date = start * day_ns;
  end_date = end * day_ns;
}

-- The answer for a booking, or for its refusal.
abbrev pub answer_for : Result Booking → Response Booking
answer_for (ok b) = json 201 b
answer_for (err e) = create_error e

created-answer :
    (h : Handler) (r : Result Booking) (w : World) → (created h r w).0 ≡ ok (answer_for r)
unfolding notify_owner
created-answer h (err e) w = refl
created-answer h (ok b) w = elim (Result-cases (get_listing b.listing_id w).0) [
  | inl (l, p) ↦ ground (arith, p)
  | inr (e, p) ↦ ground (arith, p)
]

create-answer :
    (h : Handler) (claims : Claims) (req : CreateRequest) (start end : ℕ) (w : World)
    → parse_date (codes req.start_date) ≡ some start
    → parse_date (codes req.end_date) ≡ some end
    → (create h (some claims) (some req) w).0
      ≡ ok (answer_for (create_atomic (input_of claims req start end) w).0)
unfolding create
create-answer h claims req start end w p q =
    let input = input_of claims req start end in
    let v = (create_booking h.service input w).1 in
    ground (
      arith,
      p,
      q,
      ap answer_for (create_booking-answer h.service input w),
      created-answer h (create_booking h.service input w).0 v,
    )

-- What a client is answered, by the two days, the listing's price and the blocks that the primary has.
abbrev pub expected : Claims → CreateRequest → ℕ → ℕ → ℕ → Listing → World → Response Body
expected claims req start end price l w =
    if ltb end start
    then error 400 "booking: end date must be on or after start date"
    else if is_booked (input_of claims req start end) w
    then error 409 "listing is not available for the requested dates"
    else json 201 (record {
      id = w.next_booking;
      listing_id = req.listing_id;
      renter_id = claims.user_id;
      start_date = codes req.start_date;
      end_date = codes req.end_date;
      status = requested;
      total_price_cents = pos ((min (end - start) 106_751 + 1) * price);
      created_at = w.now;
    })

same_order : (start end : ℕ) → ltb (end * day_ns) (start * day_ns) ≡ ltb end start
same_order start end = ground arith

priced :
    (start end price : ℕ)
    → price < 4_294_967_296
    → ltb end start ≡ false
    → pos (nights_between (start * day_ns) (end * day_ns)) *ℤ pos price
      ≡ pos ((min (end - start) 106_751 + 1) * price)
priced start end price h p =
    let days : end ≡ start + (end - start) = ground (arith, p) in
    ap (λ t. pos (nights_between (start * day_ns) (t * day_ns)) *ℤ pos price) days
    ∙ (ap (λ t. pos t *ℤ pos price) (nights_between_days start (end - start))
        ∙ total_exact (end - start) price h)

-- Where no statement fails, the listing is there with a price of the database's type, and there is no replica, a
-- logged-in client that asks for a booking with two dates in YYYY-MM-DD gets 400 exactly where the last day is
-- before the first, else 409 where a block of the listing shares a day with them, and else 201 with a new requested
-- booking of its own that shows the two dates as they were sent and costs the price for each day, the first and the
-- last included, up to 106752 days.
pub create_written-answer :
    (h : Handler) (claims : Claims) (req : CreateRequest) (start end price : ℕ) (l : Listing)
    (w : World)
    → ((n : ℕ) → w.faults n ≡ none)
    → find (λ x. x.id == req.listing_id) (reader w).listings ≡ some l
    → l.price_per_day_cents ≡ pos price
    → price < 4_294_967_296
    → w.replica ≡ none
    → parse_date (codes req.start_date) ≡ some start
    → parse_date (codes req.end_date) ≡ some end
    → (create_written h (some claims) (some req) w).0 ≡ ok (expected claims req start end price l w)
unfolding create_written to_response
create_written-answer h claims req start end price l w quiet listed cost small single p q =
    let input = input_of claims req start end in
    let a = create-answer h claims req start end w p q in
    let b = create_atomic-answer input l w quiet listed single in
    let s = format_date-parse_date (codes req.start_date) start p in
    let e = format_date-parse_date (codes req.end_date) end q in
    let ds : start * day_ns / day_ns ≡ start = omega arith in
    let de : end * day_ns / day_ns ≡ end = omega arith in
    let same = same_order start end in
    elim (Bool-cases (ltb end start)) [
      | inl f ↦ ground (arith, a, b, f, same)
      | inr f ↦ elim (Bool-cases (is_booked input w)) [
        | inl g ↦ ground (arith, a, b, f, same, g)
        | inr g ↦
            let total =
              ap (λ c. pos (nights_between (start * day_ns) (end * day_ns)) *ℤ c) cost
              ∙ priced start end price small f in
            ground (arith, a, b, f, same, g, total, ap format_date ds ∙ s, ap format_date de ∙ e)
      ]
    ]
