-- ===== src/Thumbnail/Float.antt =====
-- The float64 arithmetic of cmd/thumbnail-fn/handler.go: positive values mant / unit, where unit is a power of two,
-- rounded to 53 bits, half to even. `float64(n)` is exact below 2^53.
pub mod Rounding
pub mod Scales
pub mod Exact
pub mod Thin
use gearshare.Prelude.{ℕ, zero, suc, ◌+◌, ◌*◌, ◌/◌, ◌%◌, Bool, ltb, leb, ◌==◌, if◌then◌else◌}

pub record Float64 : Type 0 where
  pub mant : ℕ
  pub unit : ℕ

abbrev pub one : Float64
one = record { mant = 1; unit = 1 }

abbrev pub gt_one : Float64 → Bool
gt_one x = ltb x.unit x.mant

abbrev pub two_52 : ℕ
two_52 = 4503599627370496

-- The nearest integer to n / d, and the even one of two.
unfoldable pub round_div : ℕ → ℕ → ℕ
round_div n d =
    let q = n / d in
    let r = n % d in
    if ltb (r * 2) d then q else if ltb d (r * 2) then suc q else if q % 2 == 0 then q else suc q

-- x and unit are doubled until the quotient x / b has 53 bits; `float64` never needs more than 105 doublings for
-- integers below 2^53.
unfoldable pub normalize : ℕ → ℕ → ℕ → ℕ → ℕ × ℕ
normalize zero b x unit = (x, unit)
normalize (suc f) b x unit =
    let rest = normalize f b (2 * x) (2 * unit) in if leb (b * two_52) x then (x, unit) else rest

abbrev pub quotient : ℕ → ℕ × ℕ → Float64
quotient b (x, unit) = record { mant = round_div x b; unit = unit }

-- float64(a) / float64(b), for positive a and b.
unfoldable pub div_f64 : ℕ → ℕ → Float64
div_f64 a b = quotient b (normalize 105 b a 1)

-- The weight of the last bit of p when p is cut to 53 bits, from a weight on.
unfoldable pub last_bit : ℕ → ℕ → ℕ → ℕ
last_bit zero p j = j
last_bit (suc f) p j = let rest = last_bit f p (2 * j) in if ltb p (2 * two_52 * j) then j else rest

-- int(float64(n) * x): the product of a 53-bit and a 53-bit number is cut by at most 53 bits.
unfoldable pub mul_int : ℕ → Float64 → ℕ
mul_int n x = let p = n * x.mant in let j = last_bit 53 p 1 in round_div p j * j / x.unit
