-- ===== src/Codec/Base64/RoundTrip.antt =====
-- What `encode` writes, `decode` reads, and the characters that it writes.
use gearshare.Prelude.{
  ℕ, ◌+◌, ◌*◌, ◌/◌, ◌%◌, ◌≤◌, ◌<◌, ◌≡◌, ◌≢◌, refl, ap, ◌∙◌, some, List, [], ◌∷◌, arith, All,
  All-map, All-append, ◌++◌, select, not, ◌==◌, sym,
}
use gearshare.Codec.Base64.{
  Alphabet, raw_url, raw_std, char_of, value_of, encode, cons_value, values, join, decode, padding,
  encode_std,
}

abbrev pub IsByte : ℕ → Type 0
IsByte c = c < 256

-- A character of the alphabets is between `+` and `z`, and neither a dot nor an equals sign.
abbrev pub IsBase64 : ℕ → Type 0
IsBase64 c = (43 ≤ c) × (c ≤ 122) × (c ≢ 46) × (c ≢ 61)

char-IsBase64 : (alphabet : Alphabet) (v : ℕ) → v < 64 → IsBase64 (char_of alphabet v)
unfolding char_of
char-IsBase64 raw_url v h = ground arith
char-IsBase64 raw_std v h = ground arith

value-char :
    (alphabet : Alphabet) (v : ℕ) → v < 64 → value_of alphabet (char_of alphabet v) ≡ some v
unfolding char_of value_of
value-char raw_url v h = ground arith
value-char raw_std v h = ground arith

values-char :
    (alphabet : Alphabet) (v : ℕ) (s : List ℕ)
    → v < 64
    → values alphabet (char_of alphabet v ∷ s) ≡ cons_value (some v) (values alphabet s)
unfolding values
values-char alphabet v s h = ground (arith, char-IsBase64 alphabet v h, value-char alphabet v h)

-- The values of an encoding.
sextets : List ℕ → List ℕ
sextets [] = []
sextets (a ∷ []) = a / 4 ∷ a % 4 * 16 ∷ []
sextets (a ∷ b ∷ []) = a / 4 ∷ (a % 4 * 16 + b / 16) ∷ b % 16 * 4 ∷ []
sextets (a ∷ b ∷ c ∷ s) = a / 4 ∷ (a % 4 * 16 + b / 16) ∷ (b % 16 * 4 + c / 64) ∷ c % 64 ∷ sextets s

values-nil : (alphabet : Alphabet) → values alphabet [] ≡ some []
unfolding values
values-nil alphabet = refl

values-pair :
    (alphabet : Alphabet) (v u : ℕ) (s : List ℕ)
    → v < 64
    → u < 64
    → values alphabet (char_of alphabet v ∷ char_of alphabet u ∷ s)
      ≡ cons_value (some v) (cons_value (some u) (values alphabet s))
values-pair alphabet v u s h k =
    values-char alphabet v (char_of alphabet u ∷ s) h
    ∙ ap (cons_value (some v)) (values-char alphabet u s k)

values-encode :
    (alphabet : Alphabet) (s : List ℕ)
    → All IsByte s
    → values alphabet (encode alphabet s) ≡ some (sextets s)
unfolding encode sextets
values-encode alphabet [] h = values-nil alphabet
values-encode alphabet (a ∷ []) h =
    rw (values-pair alphabet (a / 4) (a % 4 * 16) [] (omega (arith, h.0)) (omega arith))
      (rw (values-nil alphabet) refl)
values-encode alphabet (a ∷ b ∷ []) h =
    rw
      (values-pair alphabet (a / 4) (a % 4 * 16 + b / 16) (char_of alphabet (b % 16 * 4) ∷ [])
        (omega (arith, h.0)) (omega (arith, h.1.0)))
      (rw (values-char alphabet (b % 16 * 4) [] (omega arith)) (rw (values-nil alphabet) refl))
values-encode alphabet (a ∷ b ∷ c ∷ s) h =
    let last =
      char_of alphabet (b % 16 * 4 + c / 64) ∷ char_of alphabet (c % 64) ∷ encode alphabet s in
    rw
      (values-pair alphabet (a / 4) (a % 4 * 16 + b / 16) last (omega (arith, h.0))
        (omega (arith, h.1.0)))
      (rw
        (values-pair alphabet (b % 16 * 4 + c / 64) (c % 64) (encode alphabet s)
          (omega (arith, h.1.1.0)) (omega arith))
        (rw (values-encode alphabet s h.1.1.1) refl))

join-sextets : (s : List ℕ) → All IsByte s → join (sextets s) ≡ some s
unfolding join sextets
join-sextets [] h = refl
join-sextets (a ∷ []) h = let first : a / 4 * 4 + a % 4 * 16 / 16 ≡ a = omega arith in rw first refl
join-sextets (a ∷ b ∷ []) h =
    let first : a / 4 * 4 + (a % 4 * 16 + b / 16) / 16 ≡ a = omega (arith, h.1.0) in
    let second : (a % 4 * 16 + b / 16) % 16 * 16 + b % 16 * 4 / 4 ≡ b = omega (arith, h.1.0) in
    rw (first, second) refl
join-sextets (a ∷ b ∷ c ∷ s) h =
    let first : a / 4 * 4 + (a % 4 * 16 + b / 16) / 16 ≡ a = omega (arith, h.1.0) in
    let second : (a % 4 * 16 + b / 16) % 16 * 16 + (b % 16 * 4 + c / 64) / 4 ≡ b =
      omega (arith, h.1.0, h.1.1.0) in
    let third : (b % 16 * 4 + c / 64) % 4 * 64 + c % 64 ≡ c = omega (arith, h.1.1.0) in
    rw (first, second, third, join-sextets s h.1.1.1) refl

-- Every sequence of bytes is read back from its encoding.
pub decode-encode :
    (alphabet : Alphabet) (s : List ℕ) → All IsByte s → decode alphabet (encode alphabet s) ≡ some s
unfolding decode
decode-encode alphabet s h = rw (values-encode alphabet s h) (join-sextets s h)

pub encode-All :
    (alphabet : Alphabet) (s : List ℕ) → All IsByte s → All IsBase64 (encode alphabet s)
unfolding encode
encode-All alphabet [] h = tt
encode-All alphabet (a ∷ []) h =
    let char = char-IsBase64 alphabet in
    (char (a / 4) (omega (arith, h.0)), (char (a % 4 * 16) (omega arith), tt))
encode-All alphabet (a ∷ b ∷ []) h =
    let char = char-IsBase64 alphabet in
    (
      char (a / 4) (omega (arith, h.0)),
      (char (a % 4 * 16 + b / 16) (omega (arith, h.1.0)), (char (b % 16 * 4) (omega arith), tt)),
    )
encode-All alphabet (a ∷ b ∷ c ∷ s) h =
    let char = char-IsBase64 alphabet in
    (
      char (a / 4) (omega (arith, h.0)),
      (
        char (a % 4 * 16 + b / 16) (omega (arith, h.1.0)),
        (
          char (b % 16 * 4 + c / 64) (omega (arith, h.1.1.0)),
          (char (c % 64) (omega arith), encode-All alphabet s h.1.1.1),
        ),
      ),
    )

unpad : List ℕ → List ℕ
unpad = select λ c. not (c == b'=')

unpad-append : (s t : List ℕ) → All IsBase64 s → unpad t ≡ [] → unpad (s ++ t) ≡ s
unfolding unpad select
unpad-append [] t h e = e
unpad-append (c ∷ s) t (hc, hs) e = ground (arith, unpad-append s t hs e)

unpad-padding : (s : List ℕ) → unpad (padding s) ≡ []
unfolding unpad select padding
unpad-padding [] = refl
unpad-padding (a ∷ []) = refl
unpad-padding (a ∷ b ∷ []) = refl
unpad-padding (a ∷ b ∷ c ∷ s) = unpad-padding s

unpad-encode_std : (s : List ℕ) → All IsByte s → unpad (encode_std s) ≡ encode raw_std s
unfolding encode_std
unpad-encode_std s h =
    unpad-append (encode raw_std s) (padding s) (encode-All raw_std s h) (unpad-padding s)

-- Different bytes have different encodings.
pub encode_std-injective :
    (s t : List ℕ) → All IsByte s → All IsByte t → encode_std s ≡ encode_std t → s ≡ t
encode_std-injective s t hs ht e =
    let same : encode raw_std s ≡ encode raw_std t =
      sym (unpad-encode_std s hs) ∙ (ap unpad e ∙ unpad-encode_std t ht) in
    let read : some s ≡ some t =
      sym (decode-encode raw_std s hs) ∙ (ap (decode raw_std) same ∙ decode-encode raw_std t ht) in
    cc

padding-All : (s : List ℕ) → All (λ c. (43 ≤ c) × (c ≤ 122)) (padding s)
unfolding padding
padding-All [] = tt
padding-All (a ∷ []) = ((omega arith, omega arith), ((omega arith, omega arith), tt))
padding-All (a ∷ b ∷ []) = ((omega arith, omega arith), tt)
padding-All (a ∷ b ∷ c ∷ s) = padding-All s

pub encode_std-All : (s : List ℕ) → All IsByte s → All (λ c. (43 ≤ c) × (c ≤ 122)) (encode_std s)
unfolding encode_std padding
encode_std-All s h =
    All-append _ (encode raw_std s) (padding s)
      (All-map (λ c k. (k.0, k.1)) (encode raw_std s) (encode-All raw_std s h)) (padding-All s)
