-- ===== src/Thumbnail/Fits.antt =====
-- cmd/thumbnail-fn/handler.go: the size of a thumbnail.
use gearshare.Prelude.{
  ℕ, zero, suc, ◌*◌, ◌≤◌, ◌<◌, ◌≡◌, refl, ap, ◌∙◌, arith, inl, inr, ◌⊎◌, Bool-cases, Option-cases,
  Option, some, List, true, false, ltb,
}
use native.Mathlib.Nat.{mul_comm}
use gearshare.Prelude.Int.{ℤ, pos, negsuc}
use gearshare.Codec.Base64.{decode_std}
use gearshare.Thumbnail.Float.{round_div, normalize, div_f64, mul_int}
use gearshare.Thumbnail.Float.Rounding.{round_div-near, normalize_lem, doubled_105, two_50}
use gearshare.Thumbnail.Float.Scales.{Scale, scale-le-one, side-le, long-ge, scale-gt-one}
use gearshare.Thumbnail.Float.Thin.{thin-zero}
use gearshare.Thumbnail.Float.Exact.{round_div-exact, mul_int-one, normalize-pow2, mul_int-unit}
use gearshare.Thumbnail.{
  ThumbnailRequest, ThumbnailResponse, ok, larger, dimension_of, scale_for, scaled, handler,
}

-- A size that fits is kept; any other is made to fit, with the longer side at most one short of the limit, and a
-- side that is over `big` times shorter than the other at nothing.
abbrev pub Fits : ℕ → ℕ → ℕ → ℕ → ℕ → Type 0
Fits big w h dst_w dst_h =
    ((larger w h ≤ big) × (dst_w ≡ w) × (dst_h ≡ h))
    ⊎ ((big < larger w h)
        × (dst_w ≤ big)
        × (dst_w ≤ w)
        × (dst_h ≤ big)
        × (dst_h ≤ h)
        × (big ≤ suc (larger dst_w dst_h))
        × ((larger w h ≤ w * big) ⊎ (dst_w ≡ 0))
        × ((larger w h ≤ h * big) ⊎ (dst_h ≡ 0)))

module _ (big w h : ℕ) (positive : 0 < big) (some_side : 0 < larger w h) (small_big : big < two_50)
    (small : larger w h < two_50) where
  abbrev d : ℕ
  d = larger w h

  abbrev norm : ℕ × ℕ
  norm = normalize 105 d big 1

  abbrev mantissa : ℕ
  mantissa = round_div norm.0 d

  is_Scale : Scale big d norm.0 norm.1 mantissa
  is_Scale =
      let (bits, value, unit_pos) =
        normalize_lem 105 d big big 1 (doubled_105 d big (omega (arith, small)) positive)
          (omega arith) (omega arith) in
      let (low, high) = round_div-near norm.0 d some_side in
      record { unit_pos = unit_pos; bits = bits; value = value; low = low; high = high }

  scaled_below :
      (side : ℕ)
      → big < d
      → scaled big w h side ≡ mul_int side (record { mant = mantissa; unit = norm.1 })
  unfolding scaled scale_for div_f64
  scaled_below side less =
      let m = scale-le-one big d norm.0 norm.1 mantissa is_Scale small_big less in
      let keeps : ltb norm.1 mantissa ≡ false = ground (arith, m) in rw keeps refl

  scaled_whole : (side : ℕ) → side < two_50 → d ≤ big → scaled big w h side ≡ side
  unfolding scaled scale_for div_f64
  scaled_whole side few fits = elim (Bool-cases (ltb d big)) [
    | inl more ↦
        let m =
          scale-gt-one big d norm.0 norm.1 mantissa is_Scale small_big (ground (arith, more)) in
        let cut : ltb norm.1 mantissa ≡ true = ground (arith, m) in rw cut (mul_int-one side few)
    | inr not_more ↦
        let same : big ≡ d = ground (arith, not_more, fits) in
        let (k, power) = normalize-pow2 105 d big 1 0 refl in
        let product : norm.0 ≡ norm.1 * d =
          is_Scale.value ∙ ap (λ b. b * norm.1) same ∙ mul_comm d norm.1 in
        let exact : mantissa ≡ norm.1 =
          ap (λ n. round_div n d) product ∙ round_div-exact norm.1 d some_side in
        let keeps : ltb norm.1 mantissa ≡ false = ground (arith, exact) in
        rw (keeps, exact) (mul_int-unit side norm.1 k few power is_Scale.unit_pos)
  ]

  scaled-side :
      (side : ℕ) → big < d → side ≤ d → (scaled big w h side ≤ big) × (scaled big w h side ≤ side)
  scaled-side side less h =
      rw (scaled_below side less)
        (side-le big d norm.0 norm.1 mantissa is_Scale small_big side less small h)

  thin_side : (side : ℕ) → big < d → (d ≤ side * big) ⊎ (scaled big w h side ≡ 0)
  thin_side side less = elim (Bool-cases (ltb (side * big) d)) [
    | inr wide ↦ inl (ground (arith, wide))
    | inl thin ↦ inr (
        scaled_below side less
        ∙ thin-zero big d norm.0 norm.1 mantissa is_Scale positive small side
            (ground (arith, thin)))
  ]

  longer_side :
      big ≤ suc (scaled big w h d) → big ≤ suc (larger (scaled big w h w) (scaled big w h h))
  longer_side long = elim (Bool-cases (ltb h w)) [
    | inl wide ↦ let e : d ≡ w = ground (arith, wide) in ground (arith, long, ap (scaled big w h) e)
    | inr tall ↦ let e : d ≡ h = ground (arith, tall) in ground (arith, long, ap (scaled big w h) e)
  ]

  pub scaled-Fits : Fits big w h (scaled big w h w) (scaled big w h h)
  scaled-Fits = elim (Bool-cases (ltb big d)) [
    | inr fits ↦
        let whole : d ≤ big = ground (arith, fits) in
        inl (
          whole,
          scaled_whole w (ground (arith, small)) whole,
          scaled_whole h (ground (arith, small)) whole,
        )
    | inl over ↦
        let less : big < d = ground (arith, over) in
        let (w_big, w_own) = scaled-side w less (ground arith) in
        let (h_big, h_own) = scaled-side h less (ground arith) in
        let long : big ≤ suc (scaled big w h d) =
          rw (scaled_below d less) (long-ge big d norm.0 norm.1 mantissa is_Scale small_big) in
        inr (less, w_big, w_own, h_big, h_own, longer_side long, thin_side w less, thin_side h less)
  ]

dimension_of-pos : (n : ℤ) → 0 < dimension_of n
dimension_of-pos (pos zero) = omega arith
dimension_of-pos (pos (suc n)) = omega arith
dimension_of-pos (negsuc n) = omega arith

module _ {Image : Type 0} (size : Image → ℕ × ℕ) (decode_image : List ℕ → Option Image)
    (resize : Image → ℕ → ℕ → Image) (encode_jpeg : Image → Option (List ℕ)) where
  -- A thumbnail that is answered has the size of its image, where that fits the dimension of the request, or 320
  -- where the request has none that is positive; otherwise no side is longer than that, or than the image's, and
  -- the longer one is at most one short of it, while a side that is shorter than the other by more than that
  -- factor is 0: the thumbnail is empty. The dimension and the sides are below 2^50, and the image is not empty.
  pub handler-Fits :
      (req : ThumbnailRequest) (raw : List ℕ) (src : Image) (resp : ThumbnailResponse)
      → decode_std req.image_base64 ≡ some raw
      → decode_image raw ≡ some src
      → 0 < larger (size src).0 (size src).1
      → larger (size src).0 (size src).1 < two_50
      → dimension_of req.max_dimension < two_50
      → handler size decode_image resize encode_jpeg req ≡ ok resp
      → (resp.listing_id ≡ req.listing_id)
        × Fits (dimension_of req.max_dimension) (size src).0 (size src).1 resp.width resp.height
  unfolding handler
  handler-Fits req raw src resp e f some_side small few answered =
      let m = dimension_of req.max_dimension in
      let (w, h) = size src in
      let dst_w = scaled m w h w in
      let dst_h = scaled m w h h in
      elim (Option-cases (encode_jpeg (resize src dst_w dst_h))) [
        | inl g ↦ absurd (ground (arith, e, f, g, answered))
        | inr (out, g) ↦
            let wide : resp.width ≡ dst_w = ground (arith, e, f, g, answered) in
            let tall : resp.height ≡ dst_h = ground (arith, e, f, g, answered) in
            (
              ground (arith, e, f, g, answered),
              rw (wide, tall)
                  (scaled-Fits m w h (dimension_of-pos req.max_dimension) some_side few small),
            )
      ]
