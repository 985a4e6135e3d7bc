-- ===== src/Booking/Service/Races.antt =====
-- internal/booking/repository.go: two requests that change the status of one booking, when both read
-- the row before either writes it.
use gearshare.Prelude.{ℕ, suc, ◌≡◌, ap, ◌∙◌, inl, inr, true, none, some, arith, Option-cases}
use gearshare.Model.Booking.{Status, can_transition}
use gearshare.Store.{World, ok, reader, query, exec}
use gearshare.Booking.Repository.{
  get_by_id, find_booking, update_rows, check_transition, write_transition,
}
use gearshare.Booking.Repository.Rows.{status_of, status_of-update_rows}

check_transition_passes :
    (id : ℕ) (to from : Status) (w : World)
    → w.faults w.clock ≡ none
    → w.replica ≡ none
    → status_of id w.primary.bookings ≡ some from
    → can_transition from to ≡ true
    → ((check_transition id to w).0 ≡ ok tt)
      × ((check_transition id to w).1 ≡ record w { clock = suc w.clock })
unfolding check_transition get_by_id query reader status_of
check_transition_passes id to from w q single found allowed =
    elim (Option-cases (find_booking id w.primary.bookings)) [
      | inl e ↦ ground (arith, e)
      | inr (b, e) ↦ ground (arith, e, single, q, found)
    ]

write_transition_done :
    (id : ℕ) (to : Status) (w : World)
    → w.faults w.clock ≡ none
    → ((write_transition id to w).0 ≡ ok tt)
      × ((write_transition id to w).1.primary.bookings ≡ update_rows w.now id to w.primary.bookings)
      × ((write_transition id to w).1.faults ≡ w.faults)
unfolding write_transition exec
write_transition_done id to w q = ground (arith, q)

-- Two changes of one booking, each allowed from its status, on one server where no statement fails: with
-- both checks before both writes, both requests succeed, and the booking ends in the status of the later
-- write, whether or not the map allows that change from the other one.
pub check_transition-race :
    (id : ℕ) (from to1 to2 : Status) (w : World)
    → ((n : ℕ) → w.faults n ≡ none)
    → w.replica ≡ none
    → status_of id w.primary.bookings ≡ some from
    → can_transition from to1 ≡ true
    → can_transition from to2 ≡ true
    → let (r1, w1) = check_transition id to1 w in
      let (r2, w2) = check_transition id to2 w1 in
      let (r3, w3) = write_transition id to1 w2 in
      let (r4, w4) = write_transition id to2 w3 in
      (r1 ≡ ok tt)
      × (r2 ≡ ok tt)
      × (r3 ≡ ok tt)
      × (r4 ≡ ok tt)
      × (status_of id w4.primary.bookings ≡ some to2)
check_transition-race id from to1 to2 w q single found a1 a2 =
    let c1 = check_transition_passes id to1 from w (q w.clock) single found a1 in
    let w1 : World = record w { clock = suc w.clock } in
    let c2 = check_transition_passes id to2 from w1 (q w1.clock) single found a2 in
    let w2 : World = record w { clock = suc (suc w.clock) } in
    let d1 = write_transition_done id to1 w2 (q w2.clock) in
    let w3 = (write_transition id to1 w2).1 in
    let d2 = write_transition_done id to2 w3 (ap (λ f. f w3.clock) d1.2 ∙ q w3.clock) in
    let once = status_of-update_rows id w2.now id to1 w2.primary.bookings in
    let twice = status_of-update_rows id w3.now id to2 w3.primary.bookings in
    rw (c1.1, c2.1) (c1.0, c2.0, d1.0, d2.0, ground (arith, d2.1, d1.1, once, twice, found))
