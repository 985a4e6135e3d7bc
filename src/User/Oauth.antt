-- ===== src/User/Oauth.antt =====
-- internal/user/oauth_handler.go, and VerifyIDToken of internal/auth/oidc.go: "Log in with Google". The
-- libraries are parameters: the exchange of the code, with the ID token of the answer if there is one, the
-- check of that token with its claims, the URL of a state, and the signer. A text from the request is a list
-- of bytes.
pub mod Identified
use gearshare.Prelude.{
  ℕ, String, Bool, true, false, Option, none, some, List, [], if◌then◌else◌, same,
}
use gearshare.Model.User.{User, Role}
use gearshare.Store.{M, Result, ok, err, attempt, ◌>>=◌, pure}
use gearshare.Store.Tx.{within_transaction}
use gearshare.Http.Cookie.{Cookie, max_age, cleared}
use gearshare.Auth.Tokens.{generate_token}
use gearshare.User.{get_by_id, upsert_oauth_identity}

pub record IdentityClaims : Type 0 where
  pub subject : String
  pub email : String
  pub email_verified : Bool
  pub name : String

-- VerifyIDToken: nothing on any error.
unfoldable pub verify_id_token : (String → Option IdentityClaims) → String → Option IdentityClaims
verify_id_token library raw = elim (library raw) [
  | none ↦ none
  | some claims ↦ if claims.email_verified then some claims else none
]

-- A redirect of `Start` sets the cookie; one of `Callback` carries a token to the front end.
pub data Reply : Type 0 where
  to_provider : List ℕ → Cookie → Reply
  signed_in : String → Cookie → Reply
  error : ℕ → String → Reply

abbrev pub state_cookie : Bool → List ℕ → Cookie
state_cookie is_secure state = record {
  name = "gearshare_oauth_state";
  value = state;
  path = "/";
  http_only = true;
  secure = is_secure;
  lifetime = max_age 300;
}

unfoldable pub start : Bool → (List ℕ → List ℕ) → Option (List ℕ) → Reply
unfolding generate_token
start secure auth_code_url random = elim (generate_token random) [
  | none ↦ error 500 "could not start oauth flow"
  | some state ↦ to_provider (auth_code_url state) (state_cookie secure state)
]

module _ (secure : Bool) (exchange : String → Option (Option String))
    (library : String → Option IdentityClaims) (sign : ℕ → Role → Option String) where
  abbrev with_token : Option String → Reply
  with_token none = error 500 "could not issue token"
  with_token (some token) = signed_in token (cleared (state_cookie secure []))

  abbrev pub with_user : Result User → Reply
  with_user (err e) = error 500 "could not load oauth user"
  with_user (ok u) = with_token (sign u.id u.role)

  abbrev pub linked : Result ℕ → M Reply
  linked (err e) = pure (error 500 "could not complete oauth login")
  linked (ok id) = do u ← attempt (get_by_id id); pure (with_user u)

  -- The function of the transaction.
  abbrev pub link_google : IdentityClaims → M ℕ
  link_google claims = upsert_oauth_identity "google" claims.subject claims.email claims.name

  abbrev pub with_claims : Option IdentityClaims → M Reply
  with_claims none = pure (error 401 "id_token verification failed")
  with_claims (some claims) = do id ← attempt (within_transaction (link_google claims)); linked id

  abbrev pub exchanged : Option (Option String) → M Reply
  exchanged none = pure (error 502 "oauth code exchange failed")
  exchanged (some none) = pure (error 502 "no id_token in oauth response")
  exchanged (some (some raw)) = with_claims (verify_id_token library raw)

  -- By the cookie, and the parameters "state" and "code".
  abbrev pub state_fits : Option (List ℕ) → List ℕ → Bool
  state_fits none state = false
  state_fits (some value) state = same state value

  unfoldable pub callback : Option (List ℕ) → List ℕ → String → M Reply
  callback cookie state code =
      if state_fits cookie state
      then exchanged (exchange code)
      else pure (error 400 "invalid oauth state")
