-- ===== src/Model/Listing.antt =====
-- internal/listing/model.go: the gear listing, and the row of the browse feed.
use gearshare.Prelude.{ℕ, String, Bool, true, false}
use gearshare.Prelude.Int.{ℤ}

pub data Status : Type 0 where
  draft active archived : Status

pub record Listing : Type 0 where
  pub id : ℕ
  pub owner_id : ℕ
  pub category_id : ℕ
  pub title : String
  pub description : String
  pub price_per_day_cents : ℤ  -- int64
  pub deposit_cents : ℤ  -- int64
  pub status : Status
  pub created_at : ℕ
  pub updated_at : ℕ

-- The average is a float64 that the code hands on and never computes with: its bit pattern.
pub record FeedItem : Type 0 where
  pub listing_id : ℕ
  pub title : String
  pub price_per_day_cents : ℤ
  pub deposit_cents : ℤ
  pub owner_id : ℕ
  pub owner_name : String
  pub category_id : ℕ
  pub category_name : String
  pub review_count : ℕ
  pub avg_rating : ℕ

abbrev pub is_active : Status → Bool
is_active active = true
is_active _ = false
