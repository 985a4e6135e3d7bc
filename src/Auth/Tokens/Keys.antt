-- ===== src/Auth/Tokens/Keys.antt =====
-- internal/auth/apikey.go, apikey_repository.go and middleware.go: a key that is created lets its owner in.
use gearshare.Prelude.{
  ℕ, suc, ◌≡◌, refl, ◌∙◌, String, true, none, some, List, [], ◌∷◌, ◌++◌, arith, find, ap, sym,
  Bool-cases, Option-cases, inl, inr,
}
use gearshare.Prelude.Text.{codes, str_eq, eq_iff}
use gearshare.Store.{World, ok, query, exec, reader, conflict}
use gearshare.Auth.{next, cut_prefix, find_active_by_hash, require_api_key}
use gearshare.Auth.Tokens.{GeneratedKey, hash_key, generate_key, verify_key, create_key, has_digest}
use gearshare.Codec.Base64.{raw_url, encode}

cut_own_prefix : (p s : List ℕ) → cut_prefix p (p ++ s) ≡ some s
unfolding cut_prefix
cut_own_prefix [] s = refl
cut_own_prefix (c ∷ p) s = ground (arith, cut_own_prefix p s)

str_eq_refl : (s : String) → str_eq s s ≡ true
str_eq_refl s = (eq_iff s s).1 refl

newest_found :
    (id : ℕ) (label digest : String) (w : World)
    → w.replica ≡ none
    → (create_key id label digest w).0 ≡ ok id
    → w.faults (suc w.clock) ≡ none
    → (find_active_by_hash digest (create_key id label digest w).1).0 ≡ ok label
unfolding find_active_by_hash create_key query exec reader find conflict
newest_found id label digest w alone made fine =
    elim (Bool-cases (has_digest digest w.primary.api_keys)) [
      | inl e ↦ absurd (ground (arith, made, e))
      | inr e ↦ elim (Option-cases (w.faults w.clock)) [
        | inl q ↦ ground (arith, alone, e, q, fine, str_eq_refl digest)
        | inr (x, q) ↦ absurd (ground (arith, made, e, q))
      ]
    ]

-- A header with a key that is not empty is looked up by the digest of the key.
looked_up :
    (digest : List ℕ → String) (c : ℕ) (raw : List ℕ) (header label : String) (w : World)
    → codes header ≡ codes "ApiKey " ++ c ∷ raw
    → (find_active_by_hash (digest (c ∷ raw)) w).0 ≡ ok label
    → (require_api_key digest header w).0 ≡ ok (next label)
unfolding require_api_key
looked_up digest c raw header label w e found =
    rw (e, cut_own_prefix (codes "ApiKey ") (c ∷ raw)) (ground (arith, found))

-- A key that is generated and stored lets its bearer in as its owner, in a header of "ApiKey " and the key,
-- where the INSERT succeeds, the database shows its writes to reads and the lookup does not fail; and `Verify` accepts the key.
pub created_key-accepted :
    (sha256 : List ℕ → List ℕ) (pepper random : List ℕ) (key : GeneratedKey) (id : ℕ)
    (label header : String) (w : World)
    → generate_key sha256 pepper (some random) ≡ some key
    → codes header ≡ codes "ApiKey " ++ key.raw
    → w.replica ≡ none
    → (create_key id label key.hash w).0 ≡ ok id
    → w.faults (suc w.clock) ≡ none
    → ((require_api_key (hash_key sha256 pepper) header (create_key id label key.hash w).1).0
        ≡ ok (next label))
      × (verify_key sha256 pepper key.raw key.hash ≡ true)
unfolding generate_key verify_key
created_key-accepted sha256 pepper random key id label header w g e alone made fine =
    let raw = b'g' ∷ b's' ∷ b'k' ∷ b'_' ∷ encode raw_url random in
    let raw_eq : key.raw ≡ raw = ground (arith, g) in
    let hash_eq : key.hash ≡ hash_key sha256 pepper raw = ground (arith, g) in
    rw (hash_eq, raw_eq)
      (
        looked_up (hash_key sha256 pepper) b'g' (b's' ∷ b'k' ∷ b'_' ∷ encode raw_url random) header
            label (create_key id label (hash_key sha256 pepper raw) w).1
            (e ∙ ap (λ s. codes "ApiKey " ++ s) raw_eq)
            (newest_found id label (hash_key sha256 pepper raw) w alone
              (ap (λ d. (create_key id label d w).0) (sym hash_eq) ∙ made) fine),
        str_eq_refl (hash_key sha256 pepper raw),
      )
