-- ===== src/Auth/Scrypt/Verified.antt =====
-- internal/auth/password_scrypt.go: which passwords a hash accepts.
use gearshare.Prelude.{
  ℕ, ◌≡◌, ◌≢◌, refl, ap, ◌∙◌, true, Option, some, List, [], ◌∷◌, ◌++◌, arith, All, All-map, length,
  same_refl,
}
use gearshare.Prelude.Int.{ℤ}
use gearshare.Prelude.Text.{codes}
use gearshare.Codec.Split.{split_all, split_all-append, split_all-last}
use gearshare.Codec.Decimal.{format_int}
use gearshare.Codec.Decimal.RoundTrip.{InInt64, format_int-All}
use gearshare.Codec.Base64.{raw_std, encode}
use gearshare.Codec.Base64.RoundTrip.{IsByte, decode-encode, encode-All}
use gearshare.Codec.Scan.RoundTrip.{scan_three-format_int}
use gearshare.Auth.Scrypt.{ScryptHasher, hash_text, hash, matches, with_parts, verify}

part_before :
    (a b : List ℕ) (parts : List (List ℕ))
    → All (λ c. c ≢ b'$') a
    → split_all b'$' b ≡ parts
    → split_all b'$' (a ++ b'$' ∷ b) ≡ a ∷ parts
part_before a b parts h e = split_all-append b'$' a b h ∙ ap (λ ps. a ∷ ps) e

number-NoDollar : (n : ℤ) → All (λ c. c ≢ b'$') (format_int n)
number-NoDollar n = All-map (λ c h. omega (arith, h)) (format_int n) (format_int-All n)

encoded-NoDollar : (s : List ℕ) → All IsByte s → All (λ c. c ≢ b'$') (encode raw_std s)
encoded-NoDollar s h =
    All-map (λ c k. omega (arith, k.0)) (encode raw_std s) (encode-All raw_std s h)

module _ (h : ScryptHasher) (salt derived : List ℕ) (hs : All IsByte salt)
    (hd : All IsByte derived) where
  text_parts :
      split_all b'$' (hash_text h salt derived)
      ≡ []
        ∷ codes "scrypt"
        ∷ format_int h.cost
        ∷ format_int h.block_size
        ∷ format_int h.parallelism
        ∷ encode raw_std salt
        ∷ encode raw_std derived
        ∷ []
  text_parts = part_before [] _ _ tt (
      part_before (codes "scrypt") _ _ (omega arith) (
        part_before (format_int h.cost) _ _ (number-NoDollar h.cost) (
          part_before (format_int h.block_size) _ _ (number-NoDollar h.block_size) (
            part_before (format_int h.parallelism) _ _ (number-NoDollar h.parallelism) (
              part_before (encode raw_std salt) _ _ (encoded-NoDollar salt hs)
                (split_all-last b'$' (encode raw_std derived) (encoded-NoDollar derived hd)))))))

  module _ (hn : InInt64 h.cost) (hr : InInt64 h.block_size) (hp : InInt64 h.parallelism)
      (key : List ℕ → List ℕ → ℤ → ℤ → ℤ → ℕ → Option (List ℕ)) where
    text_verified :
        (password : List ℕ)
        → verify key password (hash_text h salt derived)
          ≡ matches key derived
              (key password salt h.cost h.block_size h.parallelism (length derived))
    unfolding verify
    text_verified password =
        ap (with_parts key password) text_parts
        ∙ (rw
            (
              same_refl (codes "scrypt"),
              scan_three-format_int h.cost h.block_size h.parallelism hn hr hp,
              decode-encode raw_std salt hs,
              decode-encode raw_std derived hd,
            )
            refl)

    -- The text of a hash accepts a password exactly if scrypt derives from it, with the salt and the
    -- parameters of the hash, the key that it derived from the password that was hashed; and it accepts
    -- that password itself, where the key has the length that was asked for. Salt and key are bytes, and
    -- the parameters fit an int.
    pub verify-hash :
        (password other : List ℕ)
        → key password salt h.cost h.block_size h.parallelism h.key_len ≡ some derived
        → length derived ≡ h.key_len
        → (text : List ℕ) × (hash key h password (some salt) ≡ some text)
          × (verify key other text
              ≡ matches key derived (key other salt h.cost h.block_size h.parallelism h.key_len))
          × (verify key password text ≡ true)
    unfolding hash
    verify-hash password other made sized = (
      hash_text h salt derived,
      ground (arith, made),
      text_verified other ∙ rw sized refl,
      text_verified password ∙ rw (sized, made) (same_refl derived),
    )
