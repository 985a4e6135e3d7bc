-- ===== src/Booking/Pricing.antt =====
-- internal/booking/pricing.go. `int(d.Hours()/24)` goes through a float64, which is exact where the
-- duration is a whole number of days, as it is between two dates; here it is the exact quotient,
-- rounded towards zero.
pub mod Exact
use Prim.Native.Nat.{min}
use gearshare.Prelude.{ℕ, ◌+◌, ◌-◌, ◌/◌, Bool, not, ◌&&◌, ltb, leb, ◌==◌, if◌then◌else◌}
use gearshare.Prelude.Int.{ℤ, pos, ◌*ℤ◌, int64_max}
use gearshare.Store.{Result, ok, err, invalid_date_range}

abbrev pub day_ns : ℕ
day_ns = 86_400_000_000_000

-- The size of `t.Sub(u)`, a Duration that saturates at 2^63 - 1 ns (at -2^63 ns below, which has as
-- many whole days).
abbrev pub duration_between : ℕ → ℕ → ℕ
duration_between from to = min (to - from) int64_max

unfoldable pub nights_between : ℕ → ℕ → ℕ
nights_between start end =
    if leb start end
    then duration_between start end / day_ns + 1
    else if duration_between end start / day_ns == 0
    then 1
    else 0

unfoldable pub calculate_total_price_cents : ℕ → ℕ → ℤ → Result ℤ
calculate_total_price_cents start end price_per_day_cents =
    if ltb end start
    then err invalid_date_range
    else ok (pos (nights_between start end) *ℤ price_per_day_cents)

unfoldable pub dates_overlap : ℕ → ℕ → ℕ → ℕ → Bool
dates_overlap a_start a_end b_start b_end = not (ltb a_end b_start) && not (ltb b_end a_start)
