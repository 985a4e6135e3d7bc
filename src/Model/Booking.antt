-- ===== src/Model/Booking.antt =====
-- internal/booking/model.go: the booking row and its lifecycle. An id is a positive BIGINT that is
-- only compared, so a natural; a time.Time is the number of nanoseconds since the year 0.
use gearshare.Prelude.{ℕ, Bool, true, false, List, [], ◌∷◌, if◌then◌else◌}
use gearshare.Prelude.Int.{ℤ}

pub data Status : Type 0 where
  requested approved rejected active completed cancelled disputed : Status

pub record Booking : Type 0 where
  pub id : ℕ
  pub listing_id : ℕ
  pub renter_id : ℕ
  pub start_date : ℕ
  pub end_date : ℕ
  pub status : Status
  pub total_price_cents : ℤ  -- int64
  pub created_at : ℕ
  pub updated_at : ℕ

-- `==` on the status strings.
abbrev pub same_status : Status → Status → Bool
same_status requested requested = true
same_status approved approved = true
same_status rejected rejected = true
same_status active active = true
same_status completed completed = true
same_status cancelled cancelled = true
same_status disputed disputed = true
same_status _ _ = false

-- `validTransitions[from]`: a status that is no key has the empty list.
abbrev pub valid_transitions : Status → List Status
valid_transitions requested = approved ∷ rejected ∷ cancelled ∷ []
valid_transitions approved = active ∷ cancelled ∷ []
valid_transitions active = completed ∷ disputed ∷ []
valid_transitions _ = []

-- The loop of `CanTransition`.
allows : Status → List Status → Bool
allows to [] = false
allows to (allowed ∷ rest) =
    let later = allows to rest in if same_status allowed to then true else later

unfoldable pub can_transition : Status → Status → Bool
unfolding allows
can_transition from to = allows to (valid_transitions from)
