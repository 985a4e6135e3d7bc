-- ===== src/Review.antt =====
-- internal/review/repository.go and service.go. AVG is the World's `sql_avg`.
pub mod Handler
use gearshare.Prelude.{
  ℕ, suc, String, Bool, false, ◌||◌, none, some, List, [], ◌∷◌, map, ◌==◌, if◌then◌else◌, ltb,
  length, select, by_key,
}
use gearshare.Prelude.Int.{ℤ, pos, ltb_ℤ}
use gearshare.Model.Review.{Review, RatingSummary}
use gearshare.Store.{
  World, Tables, M, ◌>>=◌, ◌>>◌, pure, fail_if, query, exec, conflict, get_avg, invalid_rating,
}
use gearshare.Booking.Repository.{find_booking}

abbrev pub reviews_listing : Tables → ℕ → Review → Bool
reviews_listing t listing r = elim (find_booking r.booking_id t.bookings) [
  | none ↦ false
  | some b ↦ b.listing_id == listing
]

-- reviews r JOIN bookings b ON b.id = r.booking_id WHERE b.listing_id = ?
abbrev pub ratings_of : Tables → ℕ → List ℤ
ratings_of t listing = map (λ r. r.rating) (select (reviews_listing t listing) t.reviews)

-- COUNT(*) and COALESCE(AVG(r.rating), 0)
unfoldable pub summary_of : (List ℤ → ℕ) → Tables → ℕ → RatingSummary
summary_of avg t listing = record {
  listing_id = listing;
  review_count = length (ratings_of t listing);
  avg_rating = if length (ratings_of t listing) == 0 then 0 else avg (ratings_of t listing);
}

unfoldable pub get_rating_summary : ℕ → M RatingSummary
get_rating_summary listing = do avg ← get_avg; query λ t. summary_of avg t listing

-- GROUP BY b.listing_id: a row for each listing asked for that has a review.
unfoldable pub summary_rows : (List ℤ → ℕ) → Tables → List ℕ → List RatingSummary
summary_rows avg t [] = []
summary_rows avg t (id ∷ ids) =
    let rest = summary_rows avg t ids in
    if length (ratings_of t id) == 0 then rest else summary_of avg t id ∷ rest

unfoldable pub get_rating_summaries : List ℕ → M (List (ℕ × RatingSummary))
get_rating_summaries ids = do
  avg ← get_avg
  let found = query (λ t. by_key (λ s. s.listing_id) (summary_rows avg t ids) [])
  if length ids == 0 then pure [] else found

-- INSERT, where UNIQUE KEY uq_reviews_booking keeps a booking from a second review.
abbrev pub add_review : Review → World → World
add_review r w = record w {
  primary = record (w.primary) {
    reviews = record r { id = w.next_review; created_at = w.now } ∷ w.primary.reviews;
  };
  next_review = suc w.next_review;
}

abbrev pub reviewed : ℕ → Tables → Bool
reviewed booking t = ltb 0 (length (select (λ r. r.booking_id == booking) t.reviews))

unfoldable pub create_row : Review → M ℕ
create_row r w =
    if reviewed r.booking_id w.primary
    then conflict "Duplicate entry for key 'reviews.uq_reviews_booking'" w
    else exec (λ v. v.next_review) (add_review r) w

abbrev pub new_review : ℕ → ℕ → ℤ → String → Review
new_review booking reviewer rating comment = record {
  id = 0;
  booking_id = booking;
  reviewer_id = reviewer;
  rating = rating;
  comment = comment;
  created_at = 0;
}

-- `Service.Create`.
unfoldable pub create : ℕ → ℕ → ℤ → String → M Review
create booking reviewer rating comment = do
  fail_if (ltb_ℤ rating (pos 1) || ltb_ℤ (pos 5) rating) invalid_rating
  id ← create_row (new_review booking reviewer rating comment)
  pure (record (new_review booking reviewer rating comment) { id = id })
