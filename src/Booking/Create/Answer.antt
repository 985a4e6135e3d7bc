-- ===== src/Booking/Create/Answer.antt =====
-- internal/booking/tx.go: what CreateAtomic answers where no statement fails, with and without a
-- replica.
use gearshare.Prelude.{
  ℕ, suc, ◌<◌, ◌≡◌, ap, ◌∙◌, none, some, arith, find, ltb, leb, ◌==◌, ◌&&◌, Bool, true, false,
  Bool-cases, count_where, inl, inr, zero_or_pos, if◌then◌else◌,
}
use gearshare.Model.Listing.{Listing}
use gearshare.Model.Booking.{Booking}
use gearshare.Prelude.Int.{ℤ, pos, ◌*ℤ◌}
use gearshare.Booking.Pricing.{nights_between, calculate_total_price_cents}
use gearshare.Store.{
  Tables, World, Error, Result, ok, err, reader, query, query_in_tx, exec, listing_unavailable,
  booking_not_found, invalid_date_range,
}
use gearshare.Store.Tx.{attempt_tx, count_retry, tx_loop, within_transaction, is_retryable}
use gearshare.Availability.{count_overlapping, insert_block}
use gearshare.Listing.Repository.{get_by_id as get_listing}
use gearshare.Booking.Repository.{get_by_id, find_booking, create_in_tx}
use gearshare.Booking.Create.{CreateBookingInput, new_booking, create_body, create_atomic}
use gearshare.Booking.Create.Atomic.{booking_row, taken, with_rows}
use gearshare.Booking.Create.Outcome.{price_of, get_by_id-Same}

module _ (input : CreateBookingInput) (total : ℤ) (w : World)
    (quiet : (n : ℕ) → w.faults n ≡ none) where
  -- One attempt.
  attempt_refused :
      0 < taken input total w.primary
      → (attempt_tx (create_body input total) w).0 ≡ err listing_unavailable
  unfolding attempt_tx create_body count_overlapping query_in_tx
  attempt_refused h = ground (arith, quiet w.clock, quiet (suc w.clock))

  attempt_written :
      taken input total w.primary ≡ 0
      → let (r, w') = attempt_tx (create_body input total) w in
        (r ≡ ok (record (new_booking input total) { id = w.next_booking }))
        × (w'.primary ≡ with_rows input total w.next_booking w.next_block w.now w.primary)
        × (w'.replica ≡ w.replica)
        × (w'.faults ≡ w.faults)
  unfolding attempt_tx create_body count_overlapping query_in_tx create_in_tx insert_block exec
  attempt_written h = ground (
    arith,
    quiet w.clock,
    quiet (suc w.clock),
    quiet (suc (suc w.clock)),
    quiet (suc (suc (suc w.clock))),
    quiet (suc (suc (suc (suc w.clock)))),
  )

  -- The loop makes one attempt: neither answer is retried.
  refused_once :
      0 < taken input total w.primary
      → (within_transaction (create_body input total) w).0 ≡ err listing_unavailable
  unfolding within_transaction tx_loop count_retry is_retryable
  refused_once h = ground (arith, attempt_refused h)

  written_once :
      taken input total w.primary ≡ 0
      → within_transaction (create_body input total) w ≡ attempt_tx (create_body input total) w
  unfolding within_transaction tx_loop count_retry
  written_once h = ground (arith, attempt_written h)

-- The re-fetch of a booking.
get_by_id-quiet :
    (id : ℕ) (v : World)
    → v.faults v.clock ≡ none
    → (find_booking id (reader v).bookings ≡ none → (get_by_id id v).0 ≡ err booking_not_found)
      × ((b : Booking) → find_booking id (reader v).bookings ≡ some b → (get_by_id id v).0 ≡ ok b)
unfolding get_by_id query
get_by_id-quiet id v q = (λ h. ground (arith, h, q), λ b h. ground (arith, h, q))

find-new :
    (input : CreateBookingInput) (total : ℤ) (id block now : ℕ) (t : Tables)
    → find_booking id (with_rows input total id block now t).bookings
      ≡ some (booking_row input total id now)
unfolding find_booking find
find-new input total id block now t = ground arith

get_listing-quiet :
    (id : ℕ) (w : World) (l : Listing)
    → w.faults w.clock ≡ none
    → find (λ x. x.id == id) (reader w).listings ≡ some l
    → ((get_listing id w).0 ≡ ok l)
      × ((get_listing id w).1.primary ≡ w.primary)
      × ((get_listing id w).1.replica ≡ w.replica)
      × ((get_listing id w).1.faults ≡ w.faults)
      × ((get_listing id w).1.next_booking ≡ w.next_booking)
      × ((get_listing id w).1.now ≡ w.now)
      × ((get_listing id w).1.next_block ≡ w.next_block)
unfolding get_listing query
get_listing-quiet id w l q h = ground (arith, h, q)

-- A block of the listing on the primary shares a day with the dates.
abbrev pub is_booked : CreateBookingInput → World → Bool
is_booked input w = ltb 0 (
    count_where
      (λ k.
        k.listing_id == input.listing_id
        && (leb k.start_date input.end_date && leb input.start_date k.end_date))
      w.primary.blocks)

-- The answer, by the dates and the blocks.
abbrev pub answer : CreateBookingInput → Listing → World → Result Booking
answer input l w =
    let total = pos (nights_between input.start_date input.end_date) *ℤ l.price_per_day_cents in
    if ltb input.end_date input.start_date
    then err invalid_date_range
    else if is_booked input w
    then err listing_unavailable
    else ok (booking_row input total w.next_booking w.now)

module _ (input : CreateBookingInput) (l : Listing) (w : World)
    (quiet : (n : ℕ) → w.faults n ≡ none)
    (listed : find (λ x. x.id == input.listing_id) (reader w).listings ≡ some l) where
  abbrev started : World
  started = (get_listing input.listing_id w).1

  answer_disordered : (e : Error) → price_of input w l ≡ err e → (create_atomic input w).0 ≡ err e
  unfolding create_atomic
  answer_disordered e p =
      ground (arith, p, get_listing-quiet input.listing_id w l (quiet w.clock) listed)

  -- The transaction decides the rest.
  answer_refused :
      (total : ℤ)
      → price_of input w l ≡ ok total
      → 0 < taken input total w.primary
      → (create_atomic input w).0 ≡ err listing_unavailable
  unfolding create_atomic
  answer_refused total p h =
      let (a, b, c, d, _, _, _) = get_listing-quiet input.listing_id w l (quiet w.clock) listed in
      ground
        (arith, a, p, refused_once input total started (λ n. ap (λ f. f n) d ∙ quiet n) (rw b h))

  abbrev committed : ℤ → World
  committed total = (attempt_tx (create_body input total) started).1

  refetch :
      (total : ℤ)
      → price_of input w l ≡ ok total
      → taken input total w.primary ≡ 0
      → ((create_atomic input w).0 ≡ (get_by_id w.next_booking (committed total)).0)
        × ((committed total).primary
            ≡ with_rows input total w.next_booking w.next_block w.now w.primary)
        × ((committed total).replica ≡ w.replica)
        × ((committed total).faults (committed total).clock ≡ none)
        × ((create_atomic input w).1.primary
            ≡ (get_by_id w.next_booking (committed total)).1.primary)
  unfolding create_atomic
  refetch total p h =
      let (a, b, c, d, e, f, g) = get_listing-quiet input.listing_id w l (quiet w.clock) listed in
      let q : (n : ℕ) → started.faults n ≡ none = λ n. ap (λ k. k n) d ∙ quiet n in
      let once = written_once input total started q (rw b h) in
      let (r, prim, rep, faults) = attempt_written input total started q (rw b h) in
      (
        ground (arith, a, p, once, r, e),
        ground (arith, prim, b, e, f, g),
        rep ∙ c,
        ap (λ k. k (committed total).clock) faults ∙ q (committed total).clock,
        ground (arith, a, p, once, r, e),
      )

  answer_booked :
      (total : ℤ)
      → price_of input w l ≡ ok total
      → taken input total w.primary ≡ 0
      → w.replica ≡ none
      → (create_atomic input w).0 ≡ ok (booking_row input total w.next_booking w.now)
  unfolding reader
  answer_booked total p h single =
      let (a, b, c, d, _) = refetch total p h in
      let found = find-new input total w.next_booking w.next_block w.now w.primary in
      let shown : reader (committed total) ≡ (committed total).primary =
        ground (arith, c, single) in
      a ∙ (get_by_id-quiet w.next_booking (committed total) d).1 _ (rw (shown, b) found)

  late : ltb input.end_date input.start_date ≡ true → price_of input w l ≡ err invalid_date_range
  unfolding calculate_total_price_cents
  late h = ground (arith, h)

  in_order :
      ltb input.end_date input.start_date ≡ false
      → price_of input w l
        ≡ ok (pos (nights_between input.start_date input.end_date) *ℤ l.price_per_day_cents)
  unfolding calculate_total_price_cents
  in_order h = ground (arith, h)

  pub create_atomic-answer : w.replica ≡ none → (create_atomic input w).0 ≡ answer input l w
  create_atomic-answer single =
      let total = pos (nights_between input.start_date input.end_date) *ℤ l.price_per_day_cents in
      elim (Bool-cases (ltb input.end_date input.start_date)) [
        | inl h ↦ ground (arith, h, answer_disordered invalid_date_range (late h))
        | inr h ↦ elim (zero_or_pos (taken input total w.primary)) [
          | inl free ↦ ground (arith, h, free, answer_booked total (in_order h) free single)
          | inr full ↦ ground (arith, h, full, answer_refused total (in_order h) full)
        ]
      ]

  -- Where no statement fails and the dates are free, but the replica does not show the new row yet,
  -- CreateAtomic answers ErrNotFound although the booking and its block are on the primary.
  pub create_atomic-lagging :
      (total : ℤ)
      → price_of input w l ≡ ok total
      → taken input total w.primary ≡ 0
      → (t : Tables) → w.replica ≡ some t
      → find_booking w.next_booking t.bookings ≡ none
      → ((create_atomic input w).0 ≡ err booking_not_found)
        × ((create_atomic input w).1.primary
            ≡ with_rows input total w.next_booking w.next_block w.now w.primary)
  unfolding reader
  create_atomic-lagging total p h t lag missing =
      let (a, b, c, d, e) = refetch total p h in
      let shown : reader (committed total) ≡ t = ground (arith, c, lag) in
      (
        a ∙ (get_by_id-quiet w.next_booking (committed total) d).0 (rw shown missing),
        e ∙ ((get_by_id-Same w.next_booking (committed total)).0 ∙ b),
      )
