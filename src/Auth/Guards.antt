-- ===== src/Auth/Guards.antt =====
-- internal/auth: who gets through the guards.
use gearshare.Prelude.{
  ℕ, ◌≡◌, refl, ap, sym, ◌⊎◌, inl, inr, String, true, false, Option, none, some, List, [], ◌∷◌,
  ◌++◌, arith, find, Bool-cases, Option-cases, ◌==◌,
}
use gearshare.Prelude.Text.{codes, str_eq, eq_iff}
use gearshare.Store.{World, ApiKey, Result-cases, ok, reader, query}
use gearshare.Http.{Claims}
use gearshare.Auth.{
  next, cut_prefix, require_jwt, active_key, find_active_by_hash, require_api_key, require_csrf,
}

-- What is left after a prefix.
cut_prefix-append : (p s r : List ℕ) → cut_prefix p s ≡ some r → s ≡ p ++ r
unfolding cut_prefix
cut_prefix-append [] s r h = ground (arith, h)
cut_prefix-append (c ∷ p) [] r h = ground (arith, h)
cut_prefix-append (c ∷ p) (d ∷ s) r h = elim (Bool-cases (c == d)) [
  | inl e ↦ ground (arith, e, cut_prefix-append p s r (ground (arith, e, h)))
  | inr e ↦ ground (arith, e, h)
]

-- A request gets to a handler that asks for a token only with a header of "Bearer " and a token that the
-- issuer verifies, and then the handler sees the claims of that token.
pub require_jwt-verified :
    (verify : List ℕ → Option Claims) (header : String) (claims : Claims)
    → require_jwt verify header ≡ next claims
    → (token : List ℕ) × (codes header ≡ codes "Bearer " ++ token) × (verify token ≡ some claims)
unfolding require_jwt
require_jwt-verified verify header claims h =
    elim (Option-cases (cut_prefix (codes "Bearer ") (codes header))) [
      | inl e ↦ ([], ground (arith, e, h), ground (arith, e, h))
      | inr ([], e) ↦ ([], ground (arith, e, h), ground (arith, e, h))
      | inr (c ∷ token, e) ↦ (
        c ∷ token,
        cut_prefix-append (codes "Bearer ") (codes header) (c ∷ token) e,
        elim (Option-cases (verify (c ∷ token))) [
          | inl v ↦ ground (arith, e, h, v)
          | inr (k, v) ↦ ground (arith, e, h, v)
        ],
      )
    ]

abbrev no_key : ApiKey
no_key = record { owner_label = ""; key_hash = ""; revoked = false }

find_active-found :
    (digest label : String) (w : World)
    → (find_active_by_hash digest w).0 ≡ ok label
    → (k : ApiKey) × (find (active_key digest) (reader w).api_keys ≡ some k)
      × (k.owner_label ≡ label)
unfolding find_active_by_hash query
find_active-found digest label w h =
    elim (Option-cases (find (active_key digest) (reader w).api_keys)) [
      | inr (k, e) ↦ (k, e, ground (arith, e, h))
      | inl e ↦ (no_key, ground (arith, e, h), ground (arith, e, h))
    ]

-- A request gets to a partner's handler only with a header of "ApiKey " and a key whose digest is that of a
-- key row that is not revoked, and under the owner's label of that row.
pub require_api_key-active :
    (digest : List ℕ → String) (header label : String) (w : World)
    → (require_api_key digest header w).0 ≡ ok (next label)
    → (raw : List ℕ) × (codes header ≡ codes "ApiKey " ++ raw)
      × ((k : ApiKey) × (find (active_key (digest raw)) (reader w).api_keys ≡ some k)
          × (k.owner_label ≡ label))
unfolding require_api_key
require_api_key-active digest header label w h =
    elim (Option-cases (cut_prefix (codes "ApiKey ") (codes header))) [
      | inl e ↦ ([], ground (arith, e, h), (no_key, ground (arith, e, h), ground (arith, e, h)))
      | inr ([], e) ↦
          ([], ground (arith, e, h), (no_key, ground (arith, e, h), ground (arith, e, h)))
      | inr (c ∷ raw, e) ↦ (
        c ∷ raw,
        cut_prefix-append (codes "ApiKey ") (codes header) (c ∷ raw) e,
        find_active-found (digest (c ∷ raw)) label w
            (elim (Result-cases (find_active_by_hash (digest (c ∷ raw)) w).0) [
              | inl (l, p) ↦ ground (arith, e, h, p)
              | inr (x, p) ↦ ground (arith, e, h, p)
            ]),
      )
    ]

both :
    (method : String) (cookie form : Option String)
    → str_eq method "GET" ≡ false
    → str_eq method "HEAD" ≡ false
    → require_csrf method cookie form ≡ next tt
    → (token : String) × (cookie ≡ some token) × (form ≡ some token)
unfolding require_csrf
both method none form g d h = ("", ground (arith, g, d, h), ground (arith, g, d, h))
both method (some value) none g d h = ("", ground (arith, g, d, h), ground (arith, g, d, h))
both method (some value) (some submitted) g d h = elim (Bool-cases (str_eq value submitted)) [
  | inl e ↦ (value, refl, ap some (sym ((eq_iff value submitted).0 e)))
  | inr e ↦ ("", ground (arith, g, d, h, e), ground (arith, g, d, h, e))
]

-- A request that is not a GET or a HEAD gets through only if its cookie and its form hold the same token.
pub require_csrf-next :
    (method : String) (cookie form : Option String)
    → require_csrf method cookie form ≡ next tt
    → (str_eq method "GET" ≡ true)
      ⊎ (str_eq method "HEAD" ≡ true)
      ⊎ ((token : String) × (cookie ≡ some token) × (form ≡ some token))
unfolding require_csrf
require_csrf-next method cookie form h = elim (Bool-cases (str_eq method "GET")) [
  | inl g ↦ inl g
  | inr g ↦ elim (Bool-cases (str_eq method "HEAD")) [
    | inl d ↦ inr (inl d)
    | inr d ↦ inr (inr (both method cookie form g d h))
  ]
]
