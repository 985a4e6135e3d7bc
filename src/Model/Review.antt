-- ===== src/Model/Review.antt =====
-- internal/review/model.go: reviews, and the summary that the feed shows for a listing.
use gearshare.Prelude.{ℕ, String}
use gearshare.Prelude.Int.{ℤ}

pub record Review : Type 0 where
  pub id : ℕ
  pub booking_id : ℕ
  pub reviewer_id : ℕ
  pub rating : ℤ  -- int
  pub comment : String
  pub created_at : ℕ

pub record RatingSummary : Type 0 where
  pub listing_id : ℕ
  pub review_count : ℕ
  pub avg_rating : ℕ  -- the bit pattern of a float64
