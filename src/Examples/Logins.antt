-- ===== src/Examples/Logins.antt =====
-- The theorems on sessions, keys, sign-on, the routes and the configuration at the example.
use gearshare.Prelude.{
  ℕ, ◌≡◌, ◌⊎◌, refl, String, true, false, Option, none, some, List, [], ◌∷◌, ◌++◌, arith, find,
  same, select,
}
use gearshare.Prelude.Int.{ℤ, pos}
use gearshare.Prelude.Text.{codes, str_eq}
use gearshare.Model.Booking.{requested}
use gearshare.Model.User.{User, Role, admin}
use gearshare.Store.{World, ok, reader, query, query_in_tx, exec}
use gearshare.Store.Tx.{within_transaction, tx_loop, attempt_tx, count_retry}
use gearshare.Http.Cookie.{Cookie, cleared}
use gearshare.Codec.Base64.{encode}
use gearshare.Codec.Hex.{hex}
use gearshare.Auth.{next, require_api_key}
use gearshare.Auth.Session.{SessionManager, user, issue_cookie, verify}
use gearshare.Auth.Session.Signed.{Signed, verify-issue_cookie, verify-Signed}
use gearshare.Auth.Tokens.{GeneratedKey, hash_key, generate_key, verify_key, create_key}
use gearshare.Auth.Tokens.Keys.{created_key-accepted}
use gearshare.Admin.{enter, is_admin, require_session, login}
use gearshare.Admin.Access.{login-Admin}
use gearshare.User.{insert_user, upsert_oauth_identity, get_by_email, get_by_id}
use gearshare.User.Oauth.{IdentityClaims, state_cookie, callback, verify_id_token}
use gearshare.User.Oauth.Identified.{Verified, callback-Verified}
use gearshare.Config.{Config, load, settings, get_env}
use gearshare.Config.Loaded.{load-Safe}
use gearshare.Examples.{quiet, ann}

abbrev here : World
here = quiet requested

-- A code that is the key and the message, and sessions of an hour.
abbrev hmac : List ℕ → List ℕ → List ℕ
hmac key message = key ++ message

abbrev sessions : SessionManager
sessions = record { secret = codes "key"; ttl = 3600000000000 }

verify-issue_cookie_example :
    verify hmac sessions 60000000000 (some (issue_cookie hmac sessions (pos 7) true 0).value)
    ≡ user (pos 7)
verify-issue_cookie_example =
    verify-issue_cookie hmac sessions (pos 7) true 0 60000000000 (omega arith) (omega arith)

verify-Signed_example :
    (value : List ℕ) × (some (issue_cookie hmac sessions (pos 7) true 0).value ≡ some value)
    × Signed hmac sessions 0 value (pos 7)
verify-Signed_example =
    verify-Signed hmac sessions 0 (some (issue_cookie hmac sessions (pos 7) true 0).value) (pos 7)
      (verify-issue_cookie hmac sessions (pos 7) true 0 0 (omega arith) (omega arith))

-- A digest that keeps the first byte.
abbrev first_byte : List ℕ → List ℕ
first_byte [] = []
first_byte (c ∷ s) = c ∷ []

abbrev key : GeneratedKey
key = record { raw = codes "gsk_AQID"; hash = "67" }

created_key-accepted_example :
    ((require_api_key
        (hash_key first_byte (codes "pepper"))
        "ApiKey gsk_AQID"
        (create_key 2 "shop" "67" here).1).0
      ≡ ok (next "shop"))
    × (verify_key first_byte (codes "pepper") (codes "gsk_AQID") "67" ≡ true)
unfolding generate_key hash_key encode hex create_key exec
created_key-accepted_example =
    created_key-accepted first_byte (codes "pepper") (1 ∷ 2 ∷ 3 ∷ []) key 2 "shop" "ApiKey gsk_AQID"
      here refl refl refl refl refl

-- An administrator among the users.
abbrev root : User
root = record ann { id = 9; email = "root@example.org"; role = admin }

abbrev with_root : World
with_root = record here { primary = record (here.primary) { users = root ∷ [] } }

login-Admin_example :
    (u : User) × (find (λ v. str_eq v.email "root@example.org") (root ∷ []) ≡ some u)
    × (str_eq "secret-word" u.password_hash ≡ true)
    × (is_admin u.role ≡ true)
    × (c : Cookie) × (issue_cookie hmac sessions (pos 9) true 0 ∷ [] ≡ c ∷ [])
    × (require_session hmac sessions 60000000000 (some c.value) ≡ enter (pos u.id))
unfolding reader login get_by_email query find
login-Admin_example =
    login-Admin hmac sessions str_eq true none 0 60000000000 "root@example.org" "secret-word"
      with_root 303 "/admin/dashboard" (issue_cookie hmac sessions (pos 9) true 0 ∷ [])
      (omega arith, tt) (omega arith) refl

-- A provider that signs everyone in as Zoe.
abbrev exchange : String → Option (Option String)
exchange _ = some (some "id-token")

abbrev zoe : IdentityClaims
zoe = record { subject = "z"; email = "zoe@example.org"; email_verified = true; name = "Zoe" }

abbrev library : String → Option IdentityClaims
library _ = some zoe

abbrev token_for : ℕ → Role → Option String
token_for _ _ = some "token"

abbrev after_callback : World
after_callback = (callback true exchange library token_for (some (5 ∷ [])) (5 ∷ []) "code" here).1

callback-Verified_example :
    Verified true exchange library token_for (some (5 ∷ [])) (5 ∷ []) "code" "token" after_callback
unfolding callback verify_id_token within_transaction tx_loop attempt_tx count_retry
    upsert_oauth_identity insert_user get_by_id query query_in_tx exec reader find same select
callback-Verified_example =
    callback-Verified true exchange library token_for (some (5 ∷ [])) (5 ∷ []) "code" here "token"
      (cleared (state_cookie true [])) refl

-- An environment with nothing set.
abbrev pub bare : String → Option String
bare _ = none

abbrev pub no_duration : String → Option ℤ
no_duration _ = none

abbrev pub defaults : Config
defaults = record (settings bare no_duration) {
  mysql = record ((settings bare no_duration).mysql) {
    replica_dsn = (settings bare no_duration).mysql.primary_dsn;
  };
}

load-Safe_example :
    (((bare "MYSQL_REPLICA_DSN" ≡ some defaults.mysql.replica_dsn)
        × (str_eq defaults.mysql.replica_dsn "" ≡ false))
      ⊎ (defaults.mysql.replica_dsn ≡ defaults.mysql.primary_dsn))
    × (str_eq defaults.mysql.replica_dsn "" ≡ false)
    × ((str_eq defaults.env "production" ≡ false)
        ⊎ ((bare "JWT_SECRET" ≡ some defaults.auth.jwt_secret)
            × (str_eq defaults.auth.jwt_secret "" ≡ false)
            × (str_eq defaults.auth.jwt_secret "dev-only-change-me" ≡ false)))
unfolding load get_env
load-Safe_example = load-Safe bare no_duration defaults refl
