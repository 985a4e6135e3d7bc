-- ===== src/Booking/Repository/Rows.antt =====
-- The bookings table seen as a map from ids to rows: what an UPDATE and an INSERT do to it.
use gearshare.Prelude.{
  ℕ, ◌≤◌, ◌<◌, ◌≡◌, refl, ◌≢◌, Option, none, some, List, [], ◌∷◌, arith, find, ◌==◌, if◌then◌else◌,
}
use gearshare.Model.Booking.{Booking, Status}
use gearshare.Booking.Repository.{find_booking, update_rows}

-- The status under an id, which is all that the lifecycle is about.
unfoldable pub status_of : ℕ → List Booking → Option Status
unfolding find_booking
status_of id bs = elim (find_booking id bs) [ none ↦ none | some b ↦ some b.status ]

-- Every id is below the next one to be given.
abbrev pub Below : ℕ → List Booking → Type 0
Below n [] = Unit {0}
Below n (b ∷ bs) = (b.id < n) × Below n bs

pub Below-mono : {m n : ℕ} (bs : List Booking) → m ≤ n → Below m bs → Below n bs
Below-mono [] h b = tt
Below-mono (x ∷ bs) h b = (omega arith, Below-mono bs h b.1)

pub find_booking-Below :
    (n : ℕ) (bs : List Booking) → Below n bs → (id : ℕ) → n ≤ id → find_booking id bs ≡ none
unfolding find_booking find
find_booking-Below n [] b id h = refl
find_booking-Below n (x ∷ bs) b id h = ground (arith, find_booking-Below n bs b.1 id h)

pub status_of-Below :
    (n : ℕ) (bs : List Booking) → Below n bs → (id : ℕ) → n ≤ id → status_of id bs ≡ none
unfolding status_of find
status_of-Below n [] b id h = refl
status_of-Below n (x ∷ bs) b id h = ground (arith, status_of-Below n bs b.1 id h)

pub update_rows-Below :
    (n now id : ℕ) (to : Status) (bs : List Booking)
    → Below n bs
    → Below n (update_rows now id to bs)
unfolding update_rows
update_rows-Below n now id to [] b = tt
update_rows-Below n now id to (x ∷ bs) b = ground (arith, update_rows-Below n now id to bs b.1)

-- An UPDATE changes the status under its own id, if there is such a row, and no other.
pub status_of-update_rows :
    (j now id : ℕ) (to : Status) (bs : List Booking)
    → status_of j (update_rows now id to bs)
      ≡ (elim (status_of j bs) [ none ↦ none | some s ↦ some (if id == j then to else s) ])
unfolding status_of update_rows find
status_of-update_rows j now id to [] = refl
status_of-update_rows j now id to (x ∷ bs) = ground (arith, status_of-update_rows j now id to bs)

pub status_of-cons :
    (id : ℕ) (b : Booking) (bs : List Booking) → b.id ≢ id → status_of id (b ∷ bs) ≡ status_of id bs
unfolding status_of find
status_of-cons id b bs h = ground arith
