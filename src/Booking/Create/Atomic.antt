-- ===== src/Booking/Create/Atomic.antt =====
-- What one transaction of internal/booking/tx.go writes, whatever statement or commit fails.
use gearshare.Prelude.{
  ℕ, zero, suc, ◌+◌, ◌≤◌, ◌<◌, ◌≡◌, refl, ap, ◌∙◌, ◌⊎◌, inl, inr, true, some, ◌∷◌, arith,
  count_where, zero_or_pos,
}
use gearshare.Prelude.Int.{ℤ}
use gearshare.Model.Booking.{Booking}
use gearshare.Model.Availability.{Block, booked}
use gearshare.Store.{Tables, World, M, Result, Error, nil_error, is_err, query_in_tx, exec}
use gearshare.Store.Tx.{attempt_tx, count_retry, tx_loop, max_tx_retries, within_transaction}
use gearshare.Store.Tx.Steps.{count_retry-primary, count_retry-next_booking, tx_loop-cases}
use gearshare.Availability.{row_overlaps, count_overlapping, insert_block}
use gearshare.Booking.Repository.{create_in_tx}
use gearshare.Booking.Create.{CreateBookingInput, new_booking, create_body}

module _ (input : CreateBookingInput) (total : ℤ) where
  -- The two rows that a booking is made of.
  abbrev pub booking_row : ℕ → ℕ → Booking
  booking_row id now = record (new_booking input total) {
    id = id;
    created_at = now;
    updated_at = now;
  }

  abbrev pub block_row : ℕ → ℕ → ℕ → Block
  block_row id booking now = record {
    id = id;
    listing_id = input.listing_id;
    booking_id = some booking;
    start_date = input.start_date;
    end_date = input.end_date;
    reason = booked;
    created_at = now;
  }

  abbrev pub with_rows : ℕ → ℕ → ℕ → Tables → Tables
  with_rows id block now t = record t {
    bookings = booking_row id now ∷ t.bookings;
    blocks = block_row block id now ∷ t.blocks;
  }

  abbrev pub taken : Tables → ℕ
  taken t = count_where (row_overlaps input.listing_id input.start_date input.end_date) t.blocks

  -- `n` is the next booking id at the start: ids are never given twice.
  abbrev pub Refused : ℕ → Tables → Result Booking × World → Type 0
  Refused n t (r, w) = (w.primary ≡ t) × (n ≤ w.next_booking) × (is_err r ≡ true)

  abbrev pub Rows : ℕ → Tables → World → Type 0
  Rows n t w =
      (id : ℕ) × (block : ℕ) × (now : ℕ) × (n ≤ id)
      × (id < w.next_booking)
      × (w.primary ≡ with_rows id block now t)

  abbrev pub Wrote : ℕ → Tables → Result Booking × World → Type 0
  Wrote n t (r, w) = (taken t ≡ 0) × Rows n t w

  abbrev pub body : M Booking
  body = create_body input total

  attempt_full :
      (n : ℕ) (t : Tables) (w : World)
      → w.primary ≡ t
      → n ≤ w.next_booking
      → 0 < taken t
      → Refused n t (attempt_tx body w)
  unfolding attempt_tx create_body count_overlapping query_in_tx
  attempt_full n t w e m h = ground arith

  next_booking-attempt : (w : World) → w.next_booking ≤ (attempt_tx body w).1.next_booking
  unfolding attempt_tx create_body count_overlapping query_in_tx create_in_tx insert_block exec
  next_booking-attempt w = ground arith

  written :
      (w : World)
      → taken w.primary ≡ 0
      → ((attempt_tx body w).1.primary ≡ w.primary) × (is_err (attempt_tx body w).0 ≡ true)
        ⊎ ((attempt_tx body w).1.primary ≡ with_rows w.next_booking w.next_block w.now w.primary)
          × (w.next_booking < (attempt_tx body w).1.next_booking)
  unfolding attempt_tx create_body count_overlapping query_in_tx create_in_tx insert_block exec
  written w h = ground arith

  attempt_free :
      (n : ℕ) (t : Tables) (w : World)
      → w.primary ≡ t
      → n ≤ w.next_booking
      → taken t ≡ 0
      → Refused n t (attempt_tx body w) ⊎ Rows n t (attempt_tx body w).1
  attempt_free n t w e m h = elim (written w (rw e h)) [
    | inl (same, failed) ↦ inl (same ∙ e, omega (arith, next_booking-attempt w), failed)
    | inr (p, below) ↦
        inr (w.next_booking, w.next_block, w.now, m, below, p ∙ ap (with_rows _ _ _) e)
  ]

  taken-with_rows :
      (id block now : ℕ) (t : Tables)
      → input.start_date ≤ input.end_date
      → 0 < taken (with_rows id block now t)
  unfolding count_where
  taken-with_rows id block now t h = ground arith

  -- With the dates taken, no attempt writes.
  loop_full :
      (left attempt : ℕ) (last : Error) (n : ℕ) (t : Tables) (w : World)
      → w.primary ≡ t
      → n ≤ w.next_booking
      → 0 < taken t
      → Refused n t (tx_loop left attempt last body w)
  unfolding tx_loop
  loop_full zero attempt last n t w e m h = (e, m, refl)
  loop_full (suc left) attempt last n t w e m h =
      let w' = count_retry attempt w in
      let m' : n ≤ w'.next_booking = omega (arith, count_retry-next_booking attempt w) in
      let failed = attempt_full n t w' (count_retry-primary attempt w ∙ e) m' h in
      elim (tx_loop-cases body left attempt last w) [
        | inl p ↦ rw p failed
        | inr (e', _, _, p) ↦ rw p (loop_full left (attempt + 1) e' n t _ failed.0 failed.1 h)
      ]

  -- From free dates the loop writes one booking with its block, or nothing at all: where a commit
  -- that is reported as failed has gone through, the next attempt finds the dates taken.
  loop_free :
      (left attempt : ℕ) (last : Error) (n : ℕ) (t : Tables) (w : World)
      → input.start_date ≤ input.end_date
      → w.primary ≡ t
      → n ≤ w.next_booking
      → taken t ≡ 0
      → Refused n t (tx_loop left attempt last body w)
        ⊎ Wrote n t (tx_loop left attempt last body w)
  unfolding tx_loop
  loop_free zero attempt last n t w r e m h = inl (e, m, refl)
  loop_free (suc left) attempt last n t w r e m h =
      let w' = count_retry attempt w in
      let m' : n ≤ w'.next_booking = omega (arith, count_retry-next_booking attempt w) in
      elim (attempt_free n t w' (count_retry-primary attempt w ∙ e) m' h) [
        | inl failed ↦ elim (tx_loop-cases body left attempt last w) [
          | inl p ↦ rw p (inl failed)
          | inr (e', _, _, p) ↦ rw p (loop_free left (attempt + 1) e' n t _ r failed.0 failed.1 h)
        ]
        | inr (id, block, now, above, below, wrote) ↦
            elim (tx_loop-cases body left attempt last w) [
              | inl p ↦ rw p (inr (h, (id, block, now, above, below, wrote)))
              | inr (e', _, _, p) ↦
                  let rest =
                    loop_full left (attempt + 1) e' (suc id) _ _ wrote below
                      (taken-with_rows id block now t r) in
                  rw p (inr (h, (id, block, now, above, rest.1, rest.0)))
            ]
      ]

  -- A whole transaction, from any tables.
  pub within_transaction-atomic :
      (w : World)
      → input.start_date ≤ input.end_date
      → Refused w.next_booking w.primary (within_transaction body w)
        ⊎ Wrote w.next_booking w.primary (within_transaction body w)
  unfolding within_transaction
  within_transaction-atomic w r = elim (zero_or_pos (taken w.primary)) [
    | inl free ↦ loop_free max_tx_retries 0 nil_error _ w.primary w r refl (omega arith) free
    | inr full ↦ inl (loop_full max_tx_retries 0 nil_error _ w.primary w refl (omega arith) full)
  ]
