-- ===== src/Examples/Requests.antt =====
-- The theorems on whole requests, from the handler to what is behind it, at the example.
use gearshare.Prelude.{ℕ, arith, ◌≡◌, refl, String, true, Option, none, some, List, [], ◌∷◌, find}
use gearshare.Prelude.Text.{codes}
use gearshare.Model.Booking.{requested}
use gearshare.Model.User.{renter}
use gearshare.Store.{World, Payload, ok, reader}
use gearshare.Http.{Claims, json, parse_date}
use gearshare.Http.Etag.{Headers, full, not_modified, etag_of}
use gearshare.Booking.Handler.{Handler, CreateRequest}
use gearshare.Booking.Response.{create_written}
use gearshare.Booking.Response.Dates.{expected, create_written-answer}
use gearshare.Listing.Handler.Cacheable.{cacheable, send_feed}
use gearshare.Listing.Handler.Cacheable.Unchanged.{send_feed-again}
use gearshare.Examples.{quiet, tent, service}

abbrev here : World
here = quiet requested

leap_day : parse_date (codes "2024-02-29") ≡ some 739310
unfolding parse_date
leap_day = refl

abbrev bookings : Handler
bookings = record { service = service; has_notifier = true }

abbrev bob_claims : Claims
bob_claims = record { user_id = 2; role = renter }

abbrev weekend : CreateRequest
weekend = record { listing_id = 1; start_date = "2024-02-29"; end_date = "2024-03-01" }

create_written-answer_example :
    (create_written bookings (some bob_claims) (some weekend) here).0
    ≡ ok (expected bob_claims weekend 739310 739311 1500 tent here)
unfolding parse_date find reader
create_written-answer_example =
    create_written-answer bookings bob_claims weekend 739310 739311 1500 tent here (λ _. refl) refl
      refl (omega arith) refl refl refl

-- A JSON of one byte, a digest of one byte, and no date.
abbrev marshal : Payload → List ℕ
marshal p = 91 ∷ []

abbrev digest : List ℕ → List ℕ
digest s = 171 ∷ []

abbrev no_time : String → Option ℕ
no_time s = none

abbrev sent_headers : Headers
sent_headers = record {
  etag = "\"ab\"";
  last_modified = 100;
  cache_control = "private, max-age=30, must-revalidate";
}

first_sent :
    (send_feed marshal digest no_time true "" "" "" "" here).0
    ≡ ok (cacheable (full sent_headers 200 (91 ∷ [])))
unfolding send_feed gearshare.Listing.Handler.feed gearshare.Listing.Handler.feed_at
    gearshare.Cache.ListingCache.get_feed gearshare.Cache.ListingCache.lookup
    gearshare.Listing.Handler.serve_feed gearshare.Listing.Service.feed gearshare.Store.query
    gearshare.Cache.ListingCache.set_feed gearshare.Http.Etag.write_cacheable_json
    gearshare.Codec.Hex.hex
first_sent = refl

abbrev left : World
left = record here { cache = (send_feed marshal digest no_time true "" "" "" "" here).1.cache }

send_feed-again_example :
    ((send_feed marshal digest no_time true "" "" "\"ab\"" "yesterday" left).0
      ≡ ok (
          cacheable (
            not_modified (record sent_headers {
              last_modified =
                  (send_feed marshal digest no_time true "" "" "\"ab\"" "yesterday" left).1.now;
            }))))
    × ((send_feed marshal digest no_time true "" "" "\"ab\"" "yesterday" left).1.clock ≡ left.clock)
send_feed-again_example =
    send_feed-again marshal digest no_time "" "" "" "" here sent_headers (91 ∷ []) (λ _. refl)
      first_sent "yesterday" left refl refl
