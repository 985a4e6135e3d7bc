-- ===== src/Realtime/Polling/Later.antt =====
-- internal/realtime/polling.go: what a poll answers with.
use gearshare.Prelude.{
  ℕ, zero, suc, ◌≡◌, ap, sym, ◌∙◌, String, true, some, List, [], ◌∷◌, ◌==◌, find, arith,
  Option-cases, Bool-cases, inl, inr,
}
use gearshare.Prelude.Int.{ℤ, pos}
use gearshare.Prelude.Text.{codes}
use gearshare.Model.Booking.{Booking}
use gearshare.Store.{World, Result, ok, err, reader, query}
use gearshare.Http.{json, parse_int, row_id}
use gearshare.Booking.Repository.{get_by_id, find_booking}
use gearshare.Realtime.Polling.{since_of, later, checked, poll_loop, poll}

found-id : (id : ℕ) (bs : List Booking) (b : Booking) → find_booking id bs ≡ some b → b.id ≡ id
unfolding find_booking find
found-id id [] b h = ground (arith, h)
found-id id (x ∷ bs) b h = elim (Bool-cases (x.id == id)) [
  | inl e ↦
      let same : x ≡ b = ground (arith, e, h) in
      ap (λ (y : Booking). y.id) (sym same) ∙ ground (arith, e)
  | inr e ↦ found-id id bs b (ground (arith, e, h))
]

get_by_id-id : (id : ℕ) (w : World) (b : Booking) → (get_by_id id w).0 ≡ ok b → b.id ≡ id
unfolding get_by_id query
get_by_id-id id w b h = elim (Option-cases (find_booking id (reader w).bookings)) [
  | inl e ↦ ground (arith, e, h)
  | inr (x, e) ↦
      let same : x ≡ b = ground (arith, e, h) in
      found-id id (reader w).bookings b (e ∙ ap some same)
]

checked-later :
    (since : ℤ) (r : Result Booking) (b : Booking)
    → checked since r ≡ some (json 200 (some b))
    → (r ≡ ok b) × (later since b ≡ true)
checked-later since (ok x) b h = elim (Bool-cases (later since x)) [
  | inl e ↦ let same : x ≡ b = ground (arith, e, h) in (ap ok same, ap (later since) (sym same) ∙ e)
  | inr e ↦ (ground (arith, e, h), ground (arith, e, h))
]
checked-later since (err e) b h = (ground (arith, h), ground (arith, h))

poll_loop-later :
    (id : ℕ) (since : ℤ) (meanwhile : ℕ → World → World) (ticks : ℕ) (w : World) (b : Booking)
    → (poll_loop id since meanwhile ticks w).0 ≡ ok (json 200 (some b))
    → (b.id ≡ id) × (later since b ≡ true)
unfolding poll_loop
poll_loop-later id since meanwhile zero w b h =
    elim (Option-cases (checked since (get_by_id id w).0)) [
      | inl e ↦ (ground (arith, e, h), ground (arith, e, h))
      | inr (a, e) ↦
          let found = checked-later since (get_by_id id w).0 b (ground (arith, e, h)) in
          (get_by_id-id id w b found.0, found.1)
    ]
poll_loop-later id since meanwhile (suc ticks) w b h =
    elim (Option-cases (checked since (get_by_id id w).0)) [
      | inl e ↦
          poll_loop-later id since meanwhile ticks (meanwhile ticks (get_by_id id w).1) b
            (ground (arith, e, h))
      | inr (a, e) ↦
          let found = checked-later since (get_by_id id w).0 b (ground (arith, e, h)) in
          (get_by_id-id id w b found.0, found.1)
    ]

-- Whatever the others do between the checks, a poll that answers with a booking answers with the one that
-- was asked for, and with a row that was updated after the time given; the id in the path is a number.
pub poll-later :
    (param since : String) (meanwhile : ℕ → World → World) (ticks : ℕ) (w : World) (b : Booking)
    → (poll param since meanwhile ticks w).0 ≡ ok (json 200 (some b))
    → (n : ℤ) × (parse_int (codes param) ≡ some n)
      × (b.id ≡ row_id n)
      × (later (since_of since) b ≡ true)
unfolding poll
poll-later param since meanwhile ticks w b h = elim (Option-cases (parse_int (codes param))) [
  | inl e ↦ (pos 0, ground (arith, e, h), ground (arith, e, h), ground (arith, e, h))
  | inr (n, e) ↦
      let found =
        poll_loop-later (row_id n) (since_of since) meanwhile ticks w b (ground (arith, e, h)) in
      (n, e, found.0, found.1)
]
