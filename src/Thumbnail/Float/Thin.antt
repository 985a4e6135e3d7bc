-- ===== src/Thumbnail/Float/Thin.antt =====
-- The scale of cmd/thumbnail-fn on the short side of a long image.
use gearshare.Prelude.{
  ℕ, suc, ◌+◌, ◌*◌, ◌≤◌, ◌<◌, ◌≡◌, refl, ap, ◌∙◌, arith, inl, inr, ◌⊎◌, Bool-cases, ltb, leb,
}
use native.Mathlib.Nat.{mul_comm}
use gearshare.Thumbnail.Float.{two_52, round_div, last_bit, mul_int}
use gearshare.Thumbnail.Float.Rounding.{round_div-near, last_bit_lem, div-le, times-le, two_50}
use gearshare.Thumbnail.Float.Scales.{Scale}

module _ (big d x u m : ℕ) (sc : Scale big d x u m) (positive : 0 < big) (few : d < two_50) (w : ℕ)
    (thin : w * big < d) where
  -- w * d is small against the unit.
  thin-unit : 4 * (w * d) ≤ u
  thin-unit = elim (Bool-cases (leb (4 * (w * d)) u)) [
    | inl q ↦ ground (arith, q)
    | inr q ↦
        let above = times-le (suc u) (4 * (w * d)) big (ground (arith, q)) in
        let short = times-le (w * big) d d (omega (arith, thin)) in
        let square = times-le d two_50 d (omega (arith, few)) in
        let same : 4 * (w * d) * big ≡ 4 * (w * big * d) = grind arith in
        absurd (omega (arith, above, short, square, same, sc.bits, sc.value, positive))
  ]

  thin-product : 8 * (w * m * d) + 7 * u ≤ 8 * (d * u)
  thin-product =
      let low = times-le (m * d * 2) (x * 2 + d) w sc.low in
      let short = times-le (suc (w * big)) d u (omega (arith, thin)) in
      let a : m * d * 2 * w ≡ 2 * (w * m * d) = grind arith in
      let b : (x * 2 + d) * w ≡ 2 * (w * big * u) + w * d =
        ap (λ t. (t * 2 + d) * w) sc.value ∙ grind arith in
      omega (arith, low, short, a, b, thin-unit)

  -- The rounded product stays below one.
  thin-lt : (j r : ℕ) → (j ≡ 1) ⊎ (two_52 * j ≤ w * m) → r * j * 2 ≤ w * m * 2 + j → r * j < u
  thin-lt j r weight near = elim (Bool-cases (ltb (r * j) u)) [
    | inl q ↦ ground (arith, q)
    | inr q ↦
        let over : u ≤ r * j = ground (arith, q) in
        elim weight [
          | inl e ↦
              let whole = times-le u (w * m) d (omega (arith, e, over, near)) in
              absurd (omega (arith, whole, thin-product, sc.unit_pos, mul_comm u d))
          | inr e ↦
              let whole =
                times-le (two_52 * 2 * u) ((two_52 * 2 + 1) * (w * m)) d
                  (omega (arith, e, over, near)) in
              let a : two_52 * 2 * u * d ≡ two_52 * 2 * (d * u) = grind arith in
              let b : (two_52 * 2 + 1) * (w * m) * d ≡ (two_52 * 2 + 1) * (w * m * d) =
                grind arith in
              let small = times-le d two_50 u (omega (arith, few)) in
              absurd (omega (arith, whole, a, b, small, thin-product, sc.unit_pos))
        ]
  ]

  pub thin-zero : mul_int w (record { mant = m; unit = u }) ≡ 0
  unfolding mul_int
  thin-zero =
      let p = w * m in
      let j = last_bit 53 p 1 in
      let r = round_div p j in
      let (pos, weight) = last_bit_lem 53 p 1 (omega arith) (inl refl) in
      let (near, _) = round_div-near p j pos in
      let below = thin-lt j r weight near in
      omega (arith, div-le (r * j) 0 u sc.unit_pos (omega (arith, below)))
