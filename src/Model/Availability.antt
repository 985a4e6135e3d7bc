-- ===== src/Model/Availability.antt =====
-- internal/availability/model.go: the dates on which a listing is taken.
use gearshare.Prelude.{ℕ, Option}

pub data Reason : Type 0 where
  booked maintenance blocked : Reason

pub record Block : Type 0 where
  pub id : ℕ
  pub listing_id : ℕ
  pub booking_id : Option ℕ
  pub start_date : ℕ
  pub end_date : ℕ
  pub reason : Reason
  pub created_at : ℕ
