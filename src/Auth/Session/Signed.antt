-- ===== src/Auth/Session/Signed.antt =====
-- internal/auth/session_cookie.go: the cookie that is issued is the one that is accepted.
use gearshare.Prelude.{
  ℕ, ◌+◌, ◌≤◌, ◌≡◌, refl, ap, ◌∙◌, Bool, false, Option, none, some, List, ◌∷◌, ◌++◌, arith, ltb,
  All, All-map, All-append, same_refl, same→≡, if◌then◌else◌, same, Bool-cases, inl, inr,
}
use gearshare.Prelude.Int.{ℤ, pos, int64_max, ltb_ℤ}
use gearshare.Http.{parse_int}
use gearshare.Codec.Split.{split_once, split_once-append, split_once-parts}
use gearshare.Codec.Decimal.{format_int}
use gearshare.Codec.Decimal.RoundTrip.{InInt64, parse_int-format_int, format_int-All}
use gearshare.Codec.Base64.{raw_url, encode, decode}
use gearshare.Codec.Base64.RoundTrip.{IsByte, decode-encode, encode-All}
use gearshare.Auth.Session.{
  SessionManager, user, invalid, payload_of, unix, sign, cookie_value, issue_cookie, verify,
  with_fields, with_payload, with_parts, with_numbers,
}

payload-All : (u e : ℤ) → All IsByte (payload_of u e)
payload-All u e =
    All-append IsByte (format_int u) (b'|' ∷ format_int e)
      (All-map (λ c h. omega (arith, h)) (format_int u) (format_int-All u))
      (omega arith, All-map (λ c h. omega (arith, h)) (format_int e) (format_int-All e))

payload_fields : (u e : ℤ) → split_once b'|' (payload_of u e) ≡ some (format_int u, format_int e)
payload_fields u e =
    split_once-append b'|' (format_int u) (format_int e)
      (All-map (λ c h. omega (arith, h)) (format_int u) (format_int-All u))

module _ (hmac : List ℕ → List ℕ → List ℕ) (m : SessionManager) where
  value_parts :
      (u : ℤ) (expiry : ℕ)
      → split_once b'.' (cookie_value hmac m u expiry)
        ≡ some (encode raw_url (payload_of u (pos expiry)), sign hmac m (payload_of u (pos expiry)))
  unfolding cookie_value
  value_parts u expiry =
      let payload = payload_of u (pos expiry) in
      split_once-append b'.' (encode raw_url payload) (sign hmac m payload) (
        All-map (λ c h. h.2) (encode raw_url payload)
          (encode-All raw_url payload (payload-All u (pos expiry))))

  fields_read :
      (u : ℤ) (expiry later : ℕ)
      → InInt64 u
      → expiry ≤ int64_max
      → with_fields hmac m later (split_once b'|' (payload_of u (pos expiry)))
        ≡ (if ltb expiry (unix later) then invalid "auth: session expired" else user u)
  fields_read u expiry later p q =
      rw
        (
          payload_fields u (pos expiry),
          parse_int-format_int u p,
          parse_int-format_int (pos expiry) q,
        )
        (ground arith)

  -- A cookie that is issued verifies to its user until its expiry, to the second, and is refused as expired
  -- after that, for every user id of 64 bits and every expiry that fits.
  pub verify-issue_cookie :
      (u : ℤ) (is_secure : Bool) (now later : ℕ)
      → InInt64 u
      → unix (now + m.ttl) ≤ int64_max
      → verify hmac m later (some (issue_cookie hmac m u is_secure now).value) ≡ (
          if ltb (unix (now + m.ttl)) (unix later) then invalid "auth: session expired" else user u)
  unfolding verify issue_cookie
  verify-issue_cookie u is_secure now later p q =
      let expiry = unix (now + m.ttl) in
      let payload = payload_of u (pos expiry) in
      rw
        (
          value_parts u expiry,
          decode-encode raw_url payload (payload-All u (pos expiry)),
          same_refl (sign hmac m payload),
        )
        (fields_read u expiry later p q)

  -- What an accepted cookie consists of.
  pub record Signed (now : ℕ) (value : List ℕ) (u : ℤ) : Type 0 where
    pub raw : List ℕ
    pub payload : List ℕ
    pub id_text : List ℕ
    pub expiry_text : List ℕ
    pub expiry : ℤ
    pub signed : value ≡ raw ++ b'.' ∷ sign hmac m payload
    pub encoded : decode raw_url raw ≡ some payload
    pub fields : payload ≡ id_text ++ b'|' ∷ expiry_text
    pub id_read : parse_int id_text ≡ some u
    pub expiry_read : parse_int expiry_text ≡ some expiry
    pub not_expired : ltb_ℤ expiry (pos (unix now)) ≡ false

  numbers-user :
      (now : ℕ) (a b : Option ℤ) (u : ℤ)
      → with_numbers hmac m now a b ≡ user u
      → (a ≡ some u) × (expiry : ℤ) × (b ≡ some expiry) × (ltb_ℤ expiry (pos (unix now)) ≡ false)
  numbers-user now none b u h = absurd (cc)
  numbers-user now (some v) none u h = absurd (cc)
  numbers-user now (some v) (some e) u h = elim (Bool-cases (ltb_ℤ e (pos (unix now)))) [
    | inl p ↦ absurd (ground (arith, h, p))
    | inr p ↦ (ground (arith, h, p), e, refl, p)
  ]

  fields-user :
      (now : ℕ) (fields : Option (List ℕ × List ℕ)) (u : ℤ)
      → with_fields hmac m now fields ≡ user u
      → (a : List ℕ) × (b : List ℕ) × (fields ≡ some (a, b))
        × (parse_int a ≡ some u)
        × (expiry : ℤ) × (parse_int b ≡ some expiry)
        × (ltb_ℤ expiry (pos (unix now)) ≡ false)
  fields-user now none u h = absurd (cc)
  fields-user now (some (a, b)) u h =
      let (p, e, q, r) = numbers-user now (parse_int a) (parse_int b) u h in
      (a, b, refl, p, e, q, r)

  payload-user :
      (now : ℕ) (signature : List ℕ) (decoded : Option (List ℕ)) (u : ℤ)
      → with_payload hmac m now signature decoded ≡ user u
      → (payload : List ℕ) × (decoded ≡ some payload)
        × (signature ≡ sign hmac m payload)
        × (with_fields hmac m now (split_once b'|' payload) ≡ user u)
  payload-user now signature none u h = absurd (cc)
  payload-user now signature (some payload) u h =
      elim (Bool-cases (same signature (sign hmac m payload))) [
        | inl e ↦ (payload, refl, same→≡ signature (sign hmac m payload) e, ground (arith, e, h))
        | inr e ↦ absurd (ground (arith, e, h))
      ]

  parts-user :
      (now : ℕ) (parts : Option (List ℕ × List ℕ)) (u : ℤ)
      → with_parts hmac m now parts ≡ user u
      → (raw : List ℕ) × (signature : List ℕ) × (parts ≡ some (raw, signature))
        × (with_payload hmac m now signature (decode raw_url raw) ≡ user u)
  parts-user now none u h = absurd (cc)
  parts-user now (some (raw, signature)) u h = (raw, signature, refl, h)

  value-Signed :
      (now : ℕ) (value : List ℕ) (u : ℤ)
      → with_parts hmac m now (split_once b'.' value) ≡ user u
      → Signed now value u
  value-Signed now value u h =
      let (raw, signature, parts, h1) = parts-user now (split_once b'.' value) u h in
      let (payload, decoded, signs, h2) = payload-user now signature (decode raw_url raw) u h1 in
      let (a, b, fields, p, e, q, r) = fields-user now (split_once b'|' payload) u h2 in
      record {
        raw = raw;
        payload = payload;
        id_text = a;
        expiry_text = b;
        expiry = e;
        signed = split_once-parts b'.' value raw signature parts ∙ ap (λ s. raw ++ b'.' ∷ s) signs;
        encoded = decoded;
        fields = split_once-parts b'|' payload a b fields;
        id_read = p;
        expiry_read = q;
        not_expired = r;
      }

  -- A cookie is accepted only if it is a text in base64, a dot, and the signature under the manager's secret
  -- of the bytes that the text decodes to, and these are the decimal id of the user that is returned, a bar
  -- and an expiry that is not over.
  pub verify-Signed :
      (now : ℕ) (cookie : Option (List ℕ)) (u : ℤ)
      → verify hmac m now cookie ≡ user u
      → (value : List ℕ) × (cookie ≡ some value) × Signed now value u
  unfolding verify
  verify-Signed now none u h = absurd (cc)
  verify-Signed now (some value) u h = (value, refl, value-Signed now value u h)
