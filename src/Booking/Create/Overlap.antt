-- ===== src/Booking/Create/Overlap.antt =====
-- The overlap test of internal/availability/repository.go (SQL) against that of
-- internal/booking/pricing.go (Go), and the absence of double bookings.
use gearshare.Prelude.{
  ℕ, ◌≡◌, refl, inl, inr, false, List, [], ◌∷◌, arith, count_where, All, ◌==◌, ◌&&◌,
}
use gearshare.Model.Availability.{Block}
use gearshare.Store.{World}
use gearshare.Availability.{row_overlaps}
use gearshare.Booking.Pricing.{dates_overlap}
use gearshare.Booking.Create.{CreateBookingInput, create_atomic}
use gearshare.Booking.Create.Outcome.{create_atomic-Booked}

-- A block of this listing and the range share no day, by the test of pricing.go.
abbrev pub ApartFrom : ℕ → ℕ → ℕ → Block → Type 0
ApartFrom listing start end b =
    (b.listing_id == listing && dates_overlap start end b.start_date b.end_date) ≡ false

-- No two blocks of one listing share a day.
abbrev pub NoOverlap : List Block → Type 0
NoOverlap [] = Unit
NoOverlap (b ∷ bs) = All (ApartFrom b.listing_id b.start_date b.end_date) bs × NoOverlap bs

-- The SQL test on a row says what `DatesOverlap` says, on the rows of the listing.
pub row_overlaps-dates_overlap :
    (listing start end : ℕ) (b : Block)
    → row_overlaps listing start end b
      ≡ (b.listing_id == listing && dates_overlap start end b.start_date b.end_date)
unfolding dates_overlap
row_overlaps-dates_overlap listing start end b = ground arith

-- The count is 0 exactly when the range is apart from every block of the listing.
pub count_where-ApartFrom :
    (listing start end : ℕ) (bs : List Block)
    → count_where (row_overlaps listing start end) bs ≡ 0
    → All (ApartFrom listing start end) bs
unfolding count_where
count_where-ApartFrom listing start end [] h = tt
count_where-ApartFrom listing start end (b ∷ bs) h = (
  ground (arith, row_overlaps-dates_overlap listing start end b),
  count_where-ApartFrom listing start end bs (ground arith),
)

pub ApartFrom-count_where :
    (listing start end : ℕ) (bs : List Block)
    → All (ApartFrom listing start end) bs
    → count_where (row_overlaps listing start end) bs ≡ 0
unfolding count_where
ApartFrom-count_where listing start end [] h = refl
ApartFrom-count_where listing start end (b ∷ bs) h = ground (
  arith,
  h.0,
  row_overlaps-dates_overlap listing start end b,
  ApartFrom-count_where listing start end bs h.1,
)

-- Whatever fails on the way, a booking request never leaves two blocks of one listing that share a
-- day, if there were none before.
pub create_atomic-NoOverlap :
    (input : CreateBookingInput) (w : World)
    → NoOverlap w.primary.blocks
    → NoOverlap (create_atomic input w).1.primary.blocks
create_atomic-NoOverlap input w h = elim (create_atomic-Booked input w) [
  | inl (same, _) ↦ rw same.0 h
  | inr (l, total, id, block, now, _, _, free, _, _, wrote) ↦
      rw wrote (count_where-ApartFrom _ _ _ w.primary.blocks free, h)
]
