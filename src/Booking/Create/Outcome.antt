-- ===== src/Booking/Create/Outcome.antt =====
-- internal/booking/tx.go as a whole: all that CreateAtomic can do to the tables, and that it never
-- books the same dates of a listing twice.
use gearshare.Prelude.{
  ℕ, ◌≤◌, ◌<◌, ◌≡◌, refl, ap, ◌∙◌, ◌⊎◌, inl, inr, true, some, arith, find, Option-cases, ◌==◌,
}
use gearshare.Prelude.Int.{ℤ}
use gearshare.Model.Booking.{Booking}
use gearshare.Model.Listing.{Listing}
use gearshare.Store.{
  World, Result, ok, err, Result-cases, is_err, reader, query, query_in_tx, exec, nil_error, Error,
}
use gearshare.Store.Tx.{attempt_tx, count_retry, within_transaction}
use gearshare.Store.Tx.Steps.{tx_loop_inv}
use gearshare.Availability.{count_overlapping, insert_block}
use gearshare.Listing.Repository.{get_by_id as get_listing}
use gearshare.Booking.Pricing.{calculate_total_price_cents}
use gearshare.Booking.Repository.{get_by_id, create_in_tx}
use gearshare.Booking.Create.{CreateBookingInput, create_body, create_atomic}
use gearshare.Booking.Create.Atomic.{taken, with_rows, within_transaction-atomic}

-- Reads change no table and no counter.
abbrev pub Same : World → World → Type 0
Same w w' = (w'.primary ≡ w.primary) × (w'.next_booking ≡ w.next_booking)

get_listing-Same : (id : ℕ) (w : World) → Same w (get_listing id w).1
unfolding get_listing query
get_listing-Same id w = ground arith

pub get_by_id-Same : (id : ℕ) (w : World) → Same w (get_by_id id w).1
unfolding get_by_id query
get_by_id-Same id w = ground arith

get_listing-found :
    (id : ℕ) (w : World) {l : Listing}
    → (get_listing id w).0 ≡ ok l
    → find (λ x. x.id == id) (reader w).listings ≡ some l
unfolding get_listing query
get_listing-found id w {l} h = elim (Option-cases (find (λ x. x.id == id) (reader w).listings)) [
  | inl e ↦ ground (arith, e)
  | inr (l', e) ↦ ground (arith, e)
]

price_needs_order :
    (start end : ℕ) (p : ℤ) {total : ℤ}
    → calculate_total_price_cents start end p ≡ ok total
    → start ≤ end
unfolding calculate_total_price_cents
price_needs_order start end p h = ground arith

module _ (input : CreateBookingInput) (w : World) where
  -- The price that the code computes from a listing, and the transaction that follows.
  abbrev pub price_of : Listing → Result ℤ
  price_of l = calculate_total_price_cents input.start_date input.end_date l.price_per_day_cents

  abbrev pub listed : Result Listing × World
  listed = get_listing input.listing_id w

  abbrev pub transacted : ℤ → Result Booking × World
  transacted total = within_transaction (create_body input total) listed.1

  -- The ways through the function.
  abbrev pub Way : Type 0
  Way =
      ((e : Error) × (create_atomic input w ≡ (err e, listed.1)))
      ⊎ ((l : Listing) × (total : ℤ) × (listed.0 ≡ ok l)
          × (price_of l ≡ ok total)
          × (((e : Error) × (create_atomic input w ≡ (err e, (transacted total).1)))
              ⊎ ((b : Booking) × ((transacted total).0 ≡ ok b)
                  × (create_atomic input w ≡ get_by_id b.id (transacted total).1))))

  pub create_atomic-cases : Way
  unfolding create_atomic
  create_atomic-cases = elim (Result-cases listed.0) [
    | inr (e, p) ↦ inl (e, ground arith)
    | inl (l, p) ↦ elim (Result-cases (price_of l)) [
      | inr (e, q) ↦ inl (e, ground arith)
      | inl (total, q) ↦ inr (
        l,
        total,
        p,
        q,
        elim (Result-cases (transacted total).0) [
          | inr (e, r) ↦ inl (e, ground arith)
          | inl (b, r) ↦ inr (b, r, ground arith)
        ],
      )
    ]
  ]

  -- A booking of free dates at the listing's price under a new id, with its block, and nothing else.
  abbrev pub Booked : World → Type 0
  Booked w' =
      (l : Listing) × (total : ℤ) × (id : ℕ) × (block : ℕ) × (now : ℕ) × (find
          (λ x. x.id == input.listing_id) (reader w).listings
        ≡ some l)
      × (price_of l ≡ ok total)
      × (taken input total w.primary ≡ 0)
      × (w.next_booking ≤ id)
      × (id < w'.next_booking)
      × (w'.primary ≡ with_rows input total id block now w.primary)

  Booked-Same : (v v' : World) → Same v v' → Booked v → Booked v'
  Booked-Same v v' same (l, total, id, block, now, a, b, c, d, below, wrote) =
      (l, total, id, block, now, a, b, c, d, omega arith, same.0 ∙ wrote)

  abbrev pub Unchanged : World → Type 0
  Unchanged w' = (w'.primary ≡ w.primary) × (w.next_booking ≤ w'.next_booking)

  -- Whatever fails on the way, CreateAtomic leaves every table as it was and returns an error, or it
  -- has written one booking row at the price of the listing read, with status requested and a new id,
  -- and one block row with the same dates that names it; the dates were free before, and no other row
  -- changes.
  pub create_atomic-Booked :
      let (r, w') = create_atomic input w in (Unchanged w' × (is_err r ≡ true)) ⊎ Booked w'
  create_atomic-Booked = elim create_atomic-cases [
    | inl (e, p) ↦
        let same = get_listing-Same input.listing_id w in rw p (inl ((same.0, omega arith), refl))
    | inr (l, total, p, q, rest) ↦
        let same = get_listing-Same input.listing_id w in
        elim (within_transaction-atomic input total listed.1 (price_needs_order _ _ _ q)) [
          | inl (kept, more, failed) ↦ elim rest [
            | inl (e, s) ↦ rw s (inl ((kept ∙ same.0, omega arith), refl))
            | inr (b, s, _) ↦ ground (arith, s, failed)
          ]
          | inr (free, (id, block, now, above, below, wrote)) ↦
              let found : Booked (transacted total).1 = (
                l,
                total,
                id,
                block,
                now,
                get_listing-found _ w p,
                q,
                rw (← same.0) free,
                omega arith,
                below,
                wrote ∙ ap (with_rows input total id block now) same.0,
              ) in
              elim rest [
                | inl (e, s) ↦ rw s (inr found)
                | inr (b, _, s) ↦ rw s (
                    inr (
                      Booked-Same (transacted total).1 (get_by_id b.id (transacted total).1).1
                        (get_by_id-Same b.id (transacted total).1) found))
              ]
        ]
  ]

attempt-replica :
    (input : CreateBookingInput) (total : ℤ) (n : ℕ) (w : World)
    → (attempt_tx (create_body input total) (count_retry n w)).1.replica ≡ w.replica
unfolding attempt_tx count_retry create_body count_overlapping query_in_tx create_in_tx insert_block
    exec
attempt-replica input total n w = ground arith

get_listing-replica : (id : ℕ) (w : World) → (get_listing id w).1.replica ≡ w.replica
unfolding get_listing query
get_listing-replica id w = ground arith

get_by_id-replica : (id : ℕ) (w : World) → (get_by_id id w).1.replica ≡ w.replica
unfolding get_by_id query
get_by_id-replica id w = ground arith

pub create_atomic-replica :
    (input : CreateBookingInput) (w : World) → (create_atomic input w).1.replica ≡ w.replica
unfolding within_transaction
create_atomic-replica input w =
    let first = get_listing-replica input.listing_id w in
    elim (create_atomic-cases input w) [
      | inl (e, p) ↦ rw p first
      | inr (l, total, _, _, rest) ↦
          let second : (transacted input w total).1.replica ≡ w.replica =
            tx_loop_inv (λ v. v.replica ≡ w.replica) (create_body input total)
              (λ n v h. attempt-replica input total n v ∙ h) 3 0 nil_error _ first in
          elim rest [
            | inl (e, p) ↦ rw p second
            | inr (b, _, p) ↦ rw p (get_by_id-replica b.id (transacted input w total).1 ∙ second)
          ]
    ]
