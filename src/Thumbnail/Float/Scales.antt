-- ===== src/Thumbnail/Float/Scales.antt =====
-- A scale of cmd/thumbnail-fn: what it makes of the sides of an image.
use gearshare.Prelude.{
  ℕ, suc, ◌+◌, ◌-◌, ◌*◌, ◌≤◌, ◌<◌, ◌≡◌, refl, arith, inl, inr, ◌⊎◌, Bool-cases, leb,
}
use gearshare.Thumbnail.Float.{two_52, round_div, last_bit, mul_int}
use gearshare.Thumbnail.Float.Rounding.{
  round_div-near, last_bit_lem, div-le, le-div, times-le, pred-times, two_50,
}

-- A scale below one: m / u is the quotient of `big` by d, rounded, for x = big * u.
pub record Scale (big d x u m : ℕ) : Type 0 where
  pub unit_pos : 0 < u
  pub bits : d * two_52 ≤ x
  pub value : x ≡ big * u
  pub low : m * d * 2 ≤ x * 2 + d
  pub high : x * 2 ≤ m * d * 2 + d

module _ (big d x u m : ℕ) (sc : Scale big d x u m) (small : big < two_50) where
  x-le : x ≤ two_50 * u
  x-le = omega (arith, sc.value, times-le big two_50 u (omega (arith, small)))

  unit_large : 4 * d ≤ u
  unit_large = omega (arith, sc.bits, x-le)

  -- A product p is rounded to r * j.
  module _ (p j r : ℕ) (weight : (j ≡ 1) ⊎ (two_52 * j ≤ p)) where
    product-lt : p ≤ m * d → r * j * 2 ≤ p * 2 + j → r * j < x + u
    product-lt h near = elim weight [
      | inl e ↦ omega (arith, e, unit_large, sc.bits, h, near, sc.low, x-le)
      | inr e ↦ omega (arith, e, unit_large, sc.bits, h, near, sc.low, x-le)
    ]

    product-ge : p ≡ m * d → p * 2 ≤ r * j * 2 + j → x ≤ r * j + u
    product-ge h near = elim weight [
      | inl e ↦ omega (arith, e, unit_large, sc.bits, h, near, sc.low, sc.high, x-le)
      | inr e ↦ omega (arith, e, unit_large, sc.bits, h, near, sc.low, sc.high, x-le)
    ]

    own-lt : (w : ℕ) → w < two_50 → p ≤ w * u → 0 < u → r * j * 2 ≤ p * 2 + j → r * j < w * u + u
    own-lt w few h pos near =
        let bound = times-le w two_50 u (omega (arith, few)) in
        elim weight [
          | inl e ↦ omega (arith, e, h, pos, near)
          | inr e ↦ omega (arith, e, h, pos, near, bound)
        ]

  -- The scale is at most one.
  pub scale-le-one : big < d → m ≤ u
  scale-le-one less =
      let below = times-le (suc big) d u (omega (arith, less)) in
      elim (Bool-cases (leb m u)) [
        | inl q ↦ ground (arith, q)
        | inr q ↦
            let above = times-le (suc u) m d (ground (arith, q)) in
            absurd (omega (arith, below, above, sc.low, sc.value, unit_large, sc.unit_pos))
      ]

  -- A side of the image, of which d is the longer one.
  pub side-le :
      (w : ℕ)
      → big < d
      → d < two_50
      → w ≤ d
      → (mul_int w (record { mant = m; unit = u }) ≤ big)
        × (mul_int w (record { mant = m; unit = u }) ≤ w)
  unfolding mul_int
  side-le w less few h =
      let p = w * m in
      let j = last_bit 53 p 1 in
      let r = round_div p j in
      let (pos, weight) = last_bit_lem 53 p 1 (omega arith) (inl refl) in
      let (near, _) = round_div-near p j pos in
      let whole = product-lt p j r weight (grind (arith, times-le w d m)) near in
      let own =
        own-lt p j r weight w (omega (arith, h, few))
          (grind (arith, times-le m u w, scale-le-one less)) sc.unit_pos near in
      (
        div-le (r * j) big u sc.unit_pos (omega (arith, whole, sc.value)),
        div-le (r * j) w u sc.unit_pos (omega (arith, own)),
      )

  pub long-ge : big ≤ suc (mul_int d (record { mant = m; unit = u }))
  unfolding mul_int
  long-ge =
      let p = d * m in
      let j = last_bit 53 p 1 in
      let r = round_div p j in
      let (pos, weight) = last_bit_lem 53 p 1 (omega arith) (inl refl) in
      let (_, near) = round_div-near p j pos in
      let whole = product-ge p j r weight (omega arith) near in
      let before = pred-times big (r * j) u (omega (arith, whole, sc.value)) in
      omega (arith, le-div (r * j) (big - 1) u sc.unit_pos before)

  -- A larger dimension gives a scale above one.
  pub scale-gt-one : d < big → u < m
  scale-gt-one more =
      let above = times-le (suc d) big u (omega (arith, more)) in
      elim (Bool-cases (leb m u)) [
        | inr q ↦ ground (arith, q)
        | inl q ↦
            let below = times-le m u d (ground (arith, q)) in
            absurd (omega (arith, below, above, sc.high, sc.value, unit_large, sc.unit_pos))
      ]
