-- ===== src/Booking/Repository.antt =====
-- internal/booking/repository.go.
pub mod Rows
use gearshare.Prelude.{
  ℕ, suc, Bool, false, not, Option, List, [], ◌∷◌, leb, ◌==◌, if◌then◌else◌, find, select,
  count_where, take, ltb,
}
use gearshare.Model.Booking.{Booking, Status, same_status, can_transition}
use gearshare.Model.Listing.{Listing}
use gearshare.Store.{
  World, M, query, exec, ◌>>=◌, ◌>>◌, or_fail, fail_if, booking_not_found, invalid_transition,
}

-- INSERT: the database sets the id and the two times.
abbrev pub add_booking : Booking → World → World
add_booking b w = record w {
  primary = record (w.primary) {
    bookings =
        record b { id = w.next_booking; created_at = w.now; updated_at = w.now }
        ∷ w.primary.bookings;
  };
  next_booking = suc w.next_booking;
}

unfoldable pub create_in_tx : Booking → M ℕ
create_in_tx b = exec (λ w. w.next_booking) (add_booking b)

unfoldable pub find_booking : ℕ → List Booking → Option Booking
unfolding find
find_booking id = find λ b. b.id == id

unfoldable pub get_by_id : ℕ → M Booking
get_by_id id = do row ← query (λ t. find_booking id t.bookings); or_fail row booking_not_found

-- UPDATE bookings SET status = ? WHERE id = ?, with ON UPDATE CURRENT_TIMESTAMP.
abbrev pub with_status : ℕ → Status → Booking → Booking
with_status now to b = record b {
  status = to;
  updated_at = if same_status b.status to then b.updated_at else now;
}

unfoldable pub update_rows : ℕ → ℕ → Status → List Booking → List Booking
update_rows now id to [] = []
update_rows now id to (b ∷ bs) =
    (if b.id == id then with_status now to b else b) ∷ update_rows now id to bs

abbrev pub write_status : ℕ → Status → World → World
write_status id to w = record w {
  primary = record (w.primary) { bookings = update_rows w.now id to w.primary.bookings };
}

-- The two halves of UpdateStatus: the check reads, on `Reader()`, and the UPDATE writes, on the
-- primary, with nothing that holds the row in between.
unfoldable pub check_transition : ℕ → Status → M (Unit {0})
check_transition id to = do
  current ← get_by_id id
  fail_if (not (can_transition current.status to)) invalid_transition

unfoldable pub write_transition : ℕ → Status → M (Unit {0})
write_transition id to = exec (λ _. tt) (write_status id to)

unfoldable pub update_status : ℕ → Status → M (Unit {0})
update_status id to = do check_transition id to; write_transition id to

-- ORDER BY created_at DESC and ORDER BY updated_at DESC.
insert_desc : (Booking → ℕ) → Booking → List Booking → List Booking
insert_desc key b [] = b ∷ []
insert_desc key b (c ∷ cs) =
    let later = insert_desc key b cs in if leb (key c) (key b) then b ∷ c ∷ cs else c ∷ later

unfoldable pub order_desc : (Booking → ℕ) → List Booking → List Booking
unfolding insert_desc
order_desc key [] = []
order_desc key (b ∷ bs) = insert_desc key b (order_desc key bs)

unfoldable pub list_recent : ℕ → M (List Booking)
list_recent limit = query λ t. take limit (order_desc (λ b. b.created_at) t.bookings)

-- JOIN gear_listings gl ON gl.id = b.listing_id … WHERE gl.owner_id = ?
abbrev pub owned_by : ℕ → List Listing → Booking → Bool
owned_by owner listings b =
    ltb 0 (count_where (λ l. if l.id == b.listing_id then l.owner_id == owner else false) listings)

unfoldable pub list_for_owner : ℕ → M (List Booking)
list_for_owner owner =
    query λ t. order_desc (λ b. b.updated_at) (select (owned_by owner t.listings) t.bookings)
