-- ===== src/Auth/Tokens.antt =====
-- The random tokens of internal/auth: csrf.go, oauth_google.go's GenerateState, jwt.go's refresh tokens and
-- apikey.go. `random` is what crypto/rand gives, or nothing where it fails; SHA-256 is a parameter.
pub mod Keys
use gearshare.Prelude.{
  ℕ, suc, String, Bool, false, Option, none, some, List, [], ◌∷◌, ◌++◌, map, ◌/◌, ◌%◌, ◌||◌,
  if◌then◌else◌,
}
use gearshare.Prelude.Text.{codes, str_eq}
use gearshare.Store.{World, M, ApiKey, exec, conflict}
use gearshare.Http.Cookie.{Cookie, browser}
use gearshare.Codec.Hex.{hex}
use gearshare.Codec.Base64.{raw_url, encode}

-- 32 bytes for a CSRF token and a refresh token, 24 for the state of an OAuth2 login.
unfoldable pub generate_token : Option (List ℕ) → Option (List ℕ)
generate_token none = none
generate_token (some random) = some (encode raw_url random)

abbrev pub issue_csrf_cookie : List ℕ → Bool → Cookie
issue_csrf_cookie token is_secure = record {
  name = "gearshare_csrf_token";
  value = token;
  path = "/admin";
  http_only = false;
  secure = is_secure;
  lifetime = browser;
}

pub record GeneratedKey : Type 0 where
  pub raw : List ℕ
  pub hash : String

module _ (sha256 : List ℕ → List ℕ) where
  -- A refresh token, and the digest of it that is stored.
  unfoldable pub hash_refresh_token : List ℕ → String
  hash_refresh_token raw = hex (sha256 raw)

  abbrev with_digest : Option (List ℕ) → Option (List ℕ × String)
  with_digest none = none
  with_digest (some raw) = some (raw, hash_refresh_token raw)

  unfoldable pub generate_refresh_token : Option (List ℕ) → Option (List ℕ × String)
  unfolding generate_token
  generate_refresh_token random = with_digest (generate_token random)

  -- APIKeyManager, by its pepper.
  unfoldable pub hash_key : List ℕ → List ℕ → String
  hash_key pepper raw = hex (sha256 (raw ++ pepper))

  unfoldable pub generate_key : List ℕ → Option (List ℕ) → Option GeneratedKey
  generate_key pepper none = none
  generate_key pepper (some random) =
      let key = codes "gsk_" ++ encode raw_url random in
      some (record { raw = key; hash = hash_key pepper key })

  unfoldable pub verify_key : List ℕ → List ℕ → String → Bool
  verify_key pepper raw stored = str_eq (hash_key pepper raw) stored

-- APIKeyRepository.Create. The key rows have no counter in the model: the id that the database gives a
-- row is a parameter, and no code reads it.
abbrev pub add_key : ApiKey → World → World
add_key k w = record w { primary = record (w.primary) { api_keys = k ∷ w.primary.api_keys } }

abbrev pub has_digest : String → List ApiKey → Bool
has_digest digest [] = false
has_digest digest (k ∷ ks) = str_eq k.key_hash digest || has_digest digest ks

-- The digests are unique, also among the keys that are revoked.
unfoldable pub create_key : ℕ → String → String → M ℕ
create_key id owner_label key_hash w =
    if has_digest key_hash w.primary.api_keys
    then conflict "Duplicate entry for key 'api_keys.uq_api_keys_hash'" w
    else exec (λ _. id)
        (add_key (record { owner_label = owner_label; key_hash = key_hash; revoked = false })) w
