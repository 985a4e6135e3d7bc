-- ===== src/Auth.antt =====
-- internal/auth/middleware.go, csrf.go and apikey_repository.go: the guards before the handlers. A guard
-- answers with a status and a message, or runs the next handler with what it found out. JWT verification and
-- SHA-256 are parameters; subtle.ConstantTimeCompare is the equality of texts.
pub mod Guards
pub mod Session
pub mod Tokens
pub mod Interceptor
pub mod Scrypt
use gearshare.Prelude.{
  ℕ, suc, String, Bool, true, false, not, ◌&&◌, ◌||◌, Option, none, some, List, [], ◌∷◌, map, find,
  ◌==◌, if◌then◌else◌,
}
use gearshare.Prelude.Text.{codes, str_eq}
use gearshare.Store.{
  World, M, Result, ok, err, ApiKey, query, exec, or_fail, api_key_not_found, ◌>>=◌, attempt, pure,
}
use gearshare.Http.{Claims}

pub data Guard (A : Type 0) : Type 0 where
  next : A → Guard A
  refuse : ℕ → String → Guard A

-- `strings.CutPrefix`, on code points.
unfoldable pub cut_prefix : List ℕ → List ℕ → Option (List ℕ)
cut_prefix [] s = some s
cut_prefix (c ∷ p) [] = none
cut_prefix (c ∷ p) (d ∷ s) = let rest = cut_prefix p s in if c == d then rest else none

-- RequireJWT. `verify` is `issuer.Verify`.
abbrev pub by_token : (List ℕ → Option Claims) → Option (List ℕ) → Guard Claims
by_token verify none = refuse 401 "missing bearer token"
by_token verify (some []) = refuse 401 "missing bearer token"
by_token verify (some (c ∷ token)) = elim (verify (c ∷ token)) [
  | none ↦ refuse 401 "invalid or expired token"
  | some claims ↦ next claims
]

unfoldable pub require_jwt : (List ℕ → Option Claims) → String → Guard Claims
require_jwt verify header = by_token verify (cut_prefix (codes "Bearer ") (codes header))

-- APIKeyRepository.
abbrev pub active_key : String → ApiKey → Bool
active_key digest k = str_eq k.key_hash digest && not k.revoked

unfoldable pub find_active_by_hash : String → M String
find_active_by_hash digest = do
  row ← query (λ t. find (active_key digest) t.api_keys)
  k ← or_fail row api_key_not_found
  pure k.owner_label

-- RequireAPIKey. `digest` is `keyManager.hash`.
abbrev pub known : Result String → Guard String
known (ok label) = next label
known (err e) = refuse 401 "invalid or revoked API key"

abbrev pub by_key_header : (List ℕ → String) → Option (List ℕ) → M (Guard String)
by_key_header digest none = pure (refuse 401 "missing API key")
by_key_header digest (some []) = pure (refuse 401 "missing API key")
by_key_header digest (some (c ∷ raw)) = do
  r ← attempt (find_active_by_hash (digest (c ∷ raw)))
  pure (known r)

unfoldable pub require_api_key : (List ℕ → String) → String → M (Guard String)
require_api_key digest header = by_key_header digest (cut_prefix (codes "ApiKey ") (codes header))

-- RequireBasicAuth, by what `r.BasicAuth()` gives; with no header it gives two empty texts.
unfoldable pub require_basic_auth : String → String → Option (String × String) → Guard (Unit {0})
require_basic_auth username password none = refuse 401 "unauthorized"
require_basic_auth username password (some (user, pass)) =
    if str_eq user username && str_eq pass password then next tt else refuse 401 "unauthorized"

-- RequireCSRF, by the method, the cookie, and the form where it parses.
unfoldable pub require_csrf : String → Option String → Option String → Guard (Unit {0})
require_csrf method cookie form =
    if str_eq method "GET" || str_eq method "HEAD" then next tt else elim cookie [
      | none ↦ refuse 403 "missing CSRF cookie"
      | some value ↦ elim form [
        | none ↦ refuse 400 "invalid form"
        | some submitted ↦
            if str_eq value submitted then next tt else refuse 403 "CSRF token mismatch"
      ]
    ]
