-- ===== src/Thumbnail.antt =====
-- cmd/thumbnail-fn: the handler of handler.go, and the worker of main_worker.go around it. The image codecs and
-- the scaling are parameters; an image is known by its size. JSON is not modelled: `decode_json` is
-- json.Unmarshal.
pub mod Float
pub mod Fits
use gearshare.Prelude.{
  ℕ, zero, suc, Bool, true, false, Option, none, some, List, ltb, if◌then◌else◌,
}
use gearshare.Prelude.Int.{ℤ, pos, negsuc}
use gearshare.Codec.Base64.{encode_std, decode_std}
use gearshare.Thumbnail.Float.{Float64, one, gt_one, div_f64, mul_int}

pub record ThumbnailRequest : Type 0 where
  pub listing_id : ℕ
  pub image_base64 : List ℕ
  pub max_dimension : ℤ

pub record ThumbnailResponse : Type 0 where
  pub listing_id : ℕ
  pub thumbnail_base64 : List ℕ
  pub width : ℕ
  pub height : ℕ

pub data Failure : Type 0 where
  bad_base64 bad_image not_encoded : Failure

pub data Outcome : Type 0 where
  ok : ThumbnailResponse → Outcome
  err : Failure → Outcome

-- `max` of handler.go.
abbrev pub larger : ℕ → ℕ → ℕ
larger a b = if ltb b a then a else b

-- `if req.MaxDimension <= 0`
abbrev pub dimension_of : ℤ → ℕ
dimension_of (pos zero) = 320
dimension_of (pos (suc n)) = suc n
dimension_of (negsuc n) = 320

-- The scale, which is never above one.
unfoldable pub scale_for : ℕ → ℕ → ℕ → Float64
scale_for max_dimension w h =
    let scale = div_f64 max_dimension (larger w h) in if gt_one scale then one else scale

unfoldable pub scaled : ℕ → ℕ → ℕ → ℕ → ℕ
scaled max_dimension w h side = mul_int side (scale_for max_dimension w h)

module _ {Image : Type 0} (size : Image → ℕ × ℕ) (decode_image : List ℕ → Option Image)
    (resize : Image → ℕ → ℕ → Image) (encode_jpeg : Image → Option (List ℕ)) where
  abbrev pub encoded : ℕ → ℕ → ℕ → Option (List ℕ) → Outcome
  encoded id w h none = err not_encoded
  encoded id w h (some out) =
      ok (record { listing_id = id; thumbnail_base64 = encode_std out; width = w; height = h })

  abbrev pub resized : ThumbnailRequest → Option Image → Outcome
  resized req none = err bad_image
  resized req (some src) =
      let (w, h) = size src in
      let m = dimension_of req.max_dimension in
      let dst_w = scaled m w h w in
      let dst_h = scaled m w h h in
      encoded req.listing_id dst_w dst_h (encode_jpeg (resize src dst_w dst_h))

  abbrev pub decoded : ThumbnailRequest → Option (List ℕ) → Outcome
  decoded req none = err bad_base64
  decoded req (some raw) = resized req (decode_image raw)

  unfoldable pub handler : ThumbnailRequest → Outcome
  handler req = decoded req (decode_std req.image_base64)

  -- The function of the worker's consumer: whether it returns nil.
  abbrev returned : Outcome → Bool
  returned (ok _) = true
  returned (err _) = false

  unfoldable pub handle_delivery : {D : Type 0} → (D → Option ThumbnailRequest) → D → Bool
  unfolding handler
  handle_delivery decode_json d = elim (decode_json d) [
    | none ↦ false
    | some req ↦ returned (handler req)
  ]
