-- ===== src/Auth/Scrypt.antt =====
-- internal/auth/password_scrypt.go, and the cost of password_bcrypt.go. `key` is scrypt.Key, by the password,
-- the salt, N, r, p and the length, and nothing on an error; `random` is the salt, where crypto/rand gives one.
pub mod Verified
use gearshare.Prelude.{
  ℕ, Bool, true, false, ◌||◌, Option, none, some, List, [], ◌∷◌, ◌++◌, length, if◌then◌else◌, same,
}
use gearshare.Prelude.Int.{ℤ, pos, ltb_ℤ}
use gearshare.Prelude.Text.{codes}
use gearshare.Codec.Split.{split_all}
use gearshare.Codec.Decimal.{format_int}
use gearshare.Codec.Base64.{raw_std, encode, decode}
use gearshare.Codec.Scan.{scan_three}

-- NewBcryptHasher, by the least, the largest and the default cost of the library: 4, 31 and 10.
abbrev pub bcrypt_cost : ℤ → ℤ
bcrypt_cost cost = if ltb_ℤ cost (pos 4) || ltb_ℤ (pos 31) cost then pos 10 else cost

pub record ScryptHasher : Type 0 where
  pub cost : ℤ  -- N
  pub block_size : ℤ  -- R
  pub parallelism : ℤ  -- P
  pub key_len : ℕ

abbrev pub new_scrypt_hasher : ScryptHasher
new_scrypt_hasher = record {
  cost = pos 32768;
  block_size = pos 8;
  parallelism = pos 1;
  key_len = 32;
}

abbrev pub hash_text : ScryptHasher → List ℕ → List ℕ → List ℕ
hash_text h salt derived =
    b'$'
    ∷ (codes "scrypt"
        ++ b'$'
          ∷ (format_int h.cost
              ++ b'$'
                ∷ (format_int h.block_size
                    ++ b'$'
                      ∷ (format_int h.parallelism
                          ++ b'$' ∷ (encode raw_std salt ++ b'$' ∷ encode raw_std derived)))))

module _ (key : List ℕ → List ℕ → ℤ → ℤ → ℤ → ℕ → Option (List ℕ)) where
  unfoldable pub hash : ScryptHasher → List ℕ → Option (List ℕ) → Option (List ℕ)
  hash h password none = none
  hash h password (some salt) =
      elim (key password salt h.cost h.block_size h.parallelism h.key_len) [
        | none ↦ none
        | some derived ↦ some (hash_text h salt derived)
      ]

  abbrev pub matches : List ℕ → Option (List ℕ) → Bool
  matches want none = false
  matches want (some got) = same got want

  abbrev pub with_numbers : List ℕ → Option (ℤ × ℤ × ℤ) → Option (List ℕ) → Option (List ℕ) → Bool
  with_numbers password (some (n, r, p)) (some salt) (some want) =
      matches want (key password salt n r p (length want))
  with_numbers password (some (n, r, p)) (some salt) none = false
  with_numbers password (some (n, r, p)) none want = false
  with_numbers password none salt want = false

  -- `parts` has seven members: the text before the first dollar sign comes first.
  abbrev pub with_parts : List ℕ → List (List ℕ) → Bool
  with_parts password (_ ∷ name ∷ n ∷ r ∷ p ∷ salt ∷ want ∷ []) =
      if same name (codes "scrypt")
      then with_numbers password (scan_three (n ++ 32 ∷ (r ++ 32 ∷ p))) (decode raw_std salt)
          (decode raw_std want)
      else false
  with_parts password _ = false

  unfoldable pub verify : List ℕ → List ℕ → Bool
  unfolding split_all
  verify password encoded = with_parts password (split_all b'$' encoded)
