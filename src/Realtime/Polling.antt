-- ===== src/Realtime/Polling.antt =====
-- internal/realtime/polling.go. The loop runs until a deadline of 25 s with a tick each 500 ms: `ticks`
-- of them, 50 at most, come before the deadline is seen, and `meanwhile` is what the others do until the
-- next one.
pub mod Later
use gearshare.Prelude.{
  ℕ, zero, suc, ◌-◌, ◌/◌, String, Bool, true, false, Option, none, some, List, [], ◌∷◌, ◌==◌,
  if◌then◌else◌,
}
use gearshare.Prelude.Int.{ℤ, pos, negsuc, ltb_ℤ, int64_max}
use gearshare.Prelude.Text.{codes}
use gearshare.Model.Booking.{Booking}
use gearshare.Store.{World, M, Result, ok, err, Error, booking_not_found}
use gearshare.Http.{Response, json, error, parse_int, number, row_id}
use gearshare.Booking.Repository.{get_by_id}

-- A row is later than 1970, which is 62167219200 s after the year 0.
unfoldable pub unix_milli : ℕ → ℤ
unix_milli t = pos (t / 1_000_000 - 62_167_219_200_000)

-- ParseInt with its error passed over: 0 for what is no number, and the nearest int64 for a number that is
-- out of range.
abbrev out_of_range : ℤ → Option ℕ → ℤ
out_of_range bound none = pos 0
out_of_range bound (some _) = bound

abbrev nearest : List ℕ → ℤ
nearest [] = pos 0
nearest (c ∷ s) =
    if c == 43
    then out_of_range (pos int64_max) (number s)
    else if c == 45
    then out_of_range (negsuc int64_max) (number s)
    else out_of_range (pos int64_max) (number (c ∷ s))

unfoldable pub since_of : String → ℤ
since_of v = elim (parse_int (codes v)) [ some n ↦ n | none ↦ nearest (codes v) ]

-- What a check of the row decides; the response has the booking where it has changed.
abbrev pub later : ℤ → Booking → Bool
later since b = ltb_ℤ since (unix_milli b.updated_at)

abbrev pub is_not_found : Error → Bool
is_not_found booking_not_found = true
is_not_found _ = false

abbrev pub checked : ℤ → Result Booking → Option (Response (Option Booking))
checked since (ok b) = if later since b then some (json 200 (some b)) else none
checked since (err e) = some (
    error (if is_not_found e then 404 else 500)
      (if is_not_found e then "booking not found" else "could not check booking status"))

unfoldable pub poll_loop : ℕ → ℤ → (ℕ → World → World) → ℕ → M (Response (Option Booking))
poll_loop id since meanwhile zero w =
    let (r, w') = get_by_id id w in
    elim (checked since r) [ some answer ↦ (ok answer, w') | none ↦ (ok (json 200 none), w') ]
poll_loop id since meanwhile (suc ticks) w =
    let (r, w') = get_by_id id w in
    let rest = poll_loop id since meanwhile ticks (meanwhile ticks w') in
    elim (checked since r) [ some answer ↦ (ok answer, w') | none ↦ rest ]

unfoldable pub poll : String → String → (ℕ → World → World) → ℕ → M (Response (Option Booking))
poll param since meanwhile ticks w = elim (parse_int (codes param)) [
  | none ↦ (ok (error 400 "invalid booking id"), w)
  | some id ↦ poll_loop (row_id id) (since_of since) meanwhile ticks w
]
