-- ===== src/Booking/Pricing/Exact.antt =====
-- internal/booking/pricing.go: what the price and the overlap test come to.
use Prim.Native.Nat.{min, max}
use gearshare.Prelude.{ℕ, ◌+◌, ◌*◌, ◌≤◌, ◌<◌, ◌≡◌, ◌↔◌, true, arith}
use gearshare.Prelude.Int.{pos, ◌*ℤ◌, *ℤ-pos, int64_max}
use gearshare.Store.{ok}
use gearshare.Booking.Pricing.{day_ns, nights_between, calculate_total_price_cents, dates_overlap}

-- From day `d` to day `d + n` there are n + 1 rental days, up to the 106751 whole days that a Duration
-- can hold; beyond them the count stays at 106752.
pub nights_between_days :
    (d n : ℕ) → nights_between (d * day_ns) ((d + n) * day_ns) ≡ min n 106_751 + 1
unfolding nights_between
nights_between_days d n = ground arith

-- The product of the days and the price does not wrap around.
pub total_exact :
    (n price : ℕ)
    → price < 4_294_967_296
    → pos (min n 106_751 + 1) *ℤ pos price ≡ pos ((min n 106_751 + 1) * price)
total_exact n price h =
    let below : (min n 106_751 + 1) * price ≤ int64_max = grind arith in
    *ℤ-pos (min n 106_751 + 1) price below (omega arith) (omega arith)

-- From day `d` to day `d + n`, at any daily price that the INT UNSIGNED column holds, the total is the
-- exact product of the price and n + 1 days, for n up to the 106751 whole days that a Duration can
-- hold; a longer rental costs as much as 106752 days.
pub calculate_total_price_cents_days :
    (d n price : ℕ)
    → price < 4_294_967_296
    → calculate_total_price_cents (d * day_ns) ((d + n) * day_ns) (pos price)
      ≡ ok (pos ((min n 106_751 + 1) * price))
unfolding calculate_total_price_cents
calculate_total_price_cents_days d n price h =
    ground (arith, nights_between_days d n, total_exact n price h)

-- Two ranges of dates, each in order, overlap exactly when some instant lies in both.
pub dates_overlap_iff :
    (a_start a_end b_start b_end : ℕ)
    → a_start ≤ a_end
    → b_start ≤ b_end
    → (dates_overlap a_start a_end b_start b_end ≡ true)
      ↔ ((t : ℕ) × (a_start ≤ t) × (t ≤ a_end) × (b_start ≤ t) × (t ≤ b_end))
unfolding dates_overlap
dates_overlap_iff a_start a_end b_start b_end p q = (
  λ h. (max a_start b_start, ground arith, ground arith, ground arith, ground arith),
  λ h. ground (arith, h.1, h.2, h.3, h.4),
)
