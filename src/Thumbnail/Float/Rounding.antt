-- ===== src/Thumbnail/Float/Rounding.antt =====
-- The rounding of cmd/thumbnail-fn's floats: how far a quotient and a product are off.
use gearshare.Prelude.{
  ℕ, zero, suc, ◌+◌, ◌-◌, ◌*◌, ◌/◌, ◌≤◌, ◌<◌, ◌≡◌, arith, inl, inr, ◌⊎◌, Bool-cases, ltb, leb,
}
use gearshare.Thumbnail.Float.{two_52, round_div, normalize, last_bit}

-- A rounded quotient is off by at most a half.
pub round_div-near :
    (n d : ℕ) → 0 < d → (round_div n d * d * 2 ≤ n * 2 + d) × (n * 2 ≤ round_div n d * d * 2 + d)
unfolding round_div
round_div-near n d h = grind arith

abbrev pub doubled : ℕ → ℕ → ℕ
doubled zero x = x
doubled (suc f) x = doubled f (2 * x)

-- With enough doublings the quotient has its bits, and the value is the same.
pub normalize_lem :
    (f b a x unit : ℕ)
    → b * two_52 ≤ doubled f x
    → x ≡ a * unit
    → 0 < unit
    → let (x', unit') = normalize f b x unit in (b * two_52 ≤ x') × (x' ≡ a * unit') × (0 < unit')
unfolding normalize
normalize_lem zero b a x unit h e p = (h, e, p)
normalize_lem (suc f) b a x unit h e p = elim (Bool-cases (leb (b * two_52) x)) [
  | inl q ↦ ground (arith, q, e)
  | inr q ↦ rw q (normalize_lem f b a (2 * x) (2 * unit) h (grind arith) (omega arith))
]

-- The last bit is the lowest, or the number has at least 53 bits from it on.
pub last_bit_lem :
    (f p j : ℕ)
    → 0 < j
    → (j ≡ 1) ⊎ (two_52 * j ≤ p)
    → (0 < last_bit f p j) × ((last_bit f p j ≡ 1) ⊎ (two_52 * last_bit f p j ≤ p))
unfolding last_bit
last_bit_lem zero p j h e = (h, e)
last_bit_lem (suc f) p j h e = elim (Bool-cases (ltb p (2 * two_52 * j))) [
  | inl q ↦ rw q (h, e)
  | inr q ↦ rw q (last_bit_lem f p (2 * j) (omega arith) (inr (ground (arith, q))))
]

pub doubled_105 : (b a : ℕ) → b < 2 * two_52 → 0 < a → b * two_52 ≤ doubled 105 a
doubled_105 b a h p = omega arith

pub div-le : (n k u : ℕ) → 0 < u → n < suc k * u → n / u ≤ k
div-le n k u h p = grind arith

pub le-div : (n k u : ℕ) → 0 < u → k * u ≤ n → k ≤ n / u
le-div n k u h p = grind arith

pub times-le : (a b c : ℕ) → a ≤ b → a * c ≤ b * c
times-le a b c h = grind arith

pub pred-times : (n k u : ℕ) → n * u ≤ k + u → (n - 1) * u ≤ k
pred-times zero k u h = omega arith
pred-times (suc n) k u h = let e : suc n - 1 ≡ n = omega arith in rw e (omega (arith, h))

abbrev pub two_50 : ℕ
two_50 = 1125899906842624
