-- ===== src/Thumbnail/Float/Exact.antt =====
-- The products of cmd/thumbnail-fn that are not rounded.
use gearshare.Prelude.{
  ℕ, zero, suc, ◌*◌, ◌<◌, ◌≡◌, refl, sym, ap, ◌∙◌, arith, inl, inr, Bool-cases, true, ltb, leb,
}
use gearshare.Thumbnail.Float.{one, two_52, round_div, normalize, last_bit, mul_int}
use gearshare.Thumbnail.Float.Rounding.{round_div-near, last_bit_lem, times-le, two_50}

last_bit-one : (f p : ℕ) → p < two_50 → last_bit f p 1 ≡ 1
unfolding last_bit
last_bit-one zero p h = refl
last_bit-one (suc f) p h =
    let stop : ltb p (2 * two_52 * 1) ≡ true = ground (arith, h) in rw stop refl

-- A product that the last bit divides is not rounded.
pub round_div-exact : (n d : ℕ) → 0 < d → round_div (n * d) d ≡ n
round_div-exact n d h =
    let (low, high) = round_div-near (n * d) d h in
    let r = round_div (n * d) d in
    elim (Bool-cases (leb r n)) [
      | inr q ↦
          let above = times-le (suc n) r d (ground (arith, q)) in
          absurd (omega (arith, above, low, h))
      | inl q ↦ elim (Bool-cases (leb n r)) [
        | inl q' ↦ ground (arith, q, q')
        | inr q' ↦
            let below = times-le (suc r) n d (ground (arith, q')) in
            absurd (omega (arith, below, high, h))
      ]
    ]

pub mul_int-one : (w : ℕ) → w < two_50 → mul_int w one ≡ w
unfolding mul_int
mul_int-one w h =
    let e = last_bit-one 53 (w * 1) (omega (arith, h)) in
    let r : round_div (w * 1) 1 ≡ w = round_div-exact w 1 (omega arith) in rw (e, r) (omega arith)

abbrev pub pow2 : ℕ → ℕ
pow2 zero = 1
pow2 (suc k) = 2 * pow2 k

pub normalize-pow2 :
    (f b x unit k : ℕ) → unit ≡ pow2 k → (l : ℕ) × ((normalize f b x unit).1 ≡ pow2 l)
unfolding normalize
normalize-pow2 zero b x unit k e = (k, e)
normalize-pow2 (suc f) b x unit k e = elim (Bool-cases (leb (b * two_52) x)) [
  | inl q ↦ rw q (k, e)
  | inr q ↦ rw q (normalize-pow2 f b (2 * x) (2 * unit) (suc k) (omega (arith, e)))
]

-- The last bit of a small multiple of a power of two divides that power.
last_bit-divides :
    (f w u j t : ℕ) → w < two_50 → 0 < j → u ≡ pow2 t * j → (q : ℕ) × (u ≡ q * last_bit f (w * u) j)
unfolding last_bit
last_bit-divides zero w u j t h pos e = (pow2 t, e)
last_bit-divides (suc f) w u j zero h pos e =
    let few = times-le w two_50 u (omega (arith, h)) in
    let stop : ltb (w * u) (2 * two_52 * j) ≡ true = ground (arith, few, e) in
    rw stop (1, omega (arith, e))
last_bit-divides (suc f) w u j (suc t) h pos e = elim (Bool-cases (ltb (w * u) (2 * two_52 * j))) [
  | inl q ↦ rw q (pow2 (suc t), e)
  | inr q ↦ rw q (last_bit-divides f w u (2 * j) t h (omega arith) (grind (arith, e)))
]

pub mul_int-unit :
    (w u k : ℕ) → w < two_50 → u ≡ pow2 k → 0 < u → mul_int w (record { mant = u; unit = u }) ≡ w
unfolding mul_int
mul_int-unit w u k h e pos =
    let p = w * u in
    let j = last_bit 53 p 1 in
    let (jpos, _) = last_bit_lem 53 p 1 (omega arith) (inl refl) in
    let (q, whole) = last_bit-divides 53 w u 1 k h (omega arith) (omega (arith, e)) in
    let product : p ≡ (w * q) * j = grind (arith, whole) in
    let rounded : round_div p j ≡ w * q =
      ap (λ n. round_div n j) product ∙ round_div-exact (w * q) j jpos in
    let same : round_div p j * j ≡ w * u = ap (λ r. r * j) rounded ∙ sym product in
    rw same (grind arith)
