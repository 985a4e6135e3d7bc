-- ===== src/Auth/Session.antt =====
-- internal/auth/session_cookie.go. HMAC-SHA256 is a parameter, by its key and its message; base64, the
-- decimal numbers and the splits are those of `Codec`. A time is in nanoseconds since 1970.
pub mod Signed
use gearshare.Prelude.{
  ℕ, ◌+◌, ◌/◌, String, Bool, true, false, Option, none, some, List, [], ◌∷◌, ◌++◌, if◌then◌else◌,
  same,
}
use gearshare.Prelude.Int.{ℤ, pos, ltb_ℤ}
use gearshare.Http.{parse_int}
use gearshare.Http.Cookie.{Cookie, expires, cleared, browser}
use gearshare.Codec.Split.{split_once}
use gearshare.Codec.Decimal.{format_int}
use gearshare.Codec.Base64.{raw_url, encode, decode}

abbrev pub unix : ℕ → ℕ
unix t = t / 1000000000

pub record SessionManager : Type 0 where
  pub secret : List ℕ
  pub ttl : ℕ

-- What `Verify` returns.
pub data Session : Type 0 where
  user : ℤ → Session
  invalid : String → Session

abbrev pub payload_of : ℤ → ℤ → List ℕ
payload_of user_id expiry = format_int user_id ++ b'|' ∷ format_int expiry

module _ (hmac : List ℕ → List ℕ → List ℕ) (m : SessionManager) where
  unfoldable pub sign : List ℕ → List ℕ
  sign payload = encode raw_url (hmac m.secret payload)

  unfoldable pub cookie_value : ℤ → ℕ → List ℕ
  cookie_value user_id expiry =
      let payload = payload_of user_id (pos expiry) in encode raw_url payload ++ b'.' ∷ sign payload

  abbrev pub expiry_at : ℕ → ℕ
  expiry_at now = unix (now + m.ttl)

  unfoldable pub issue_cookie : ℤ → Bool → ℕ → Cookie
  issue_cookie user_id is_secure now = record {
    name = "gearshare_admin_session";
    value = cookie_value user_id (expiry_at now);
    path = "/admin";
    http_only = true;
    secure = is_secure;
    lifetime = expires (expiry_at now);
  }

  unfoldable pub clear_cookie : Bool → Cookie
  clear_cookie is_secure = cleared (record {
    name = "gearshare_admin_session";
    value = [];
    path = "/admin";
    http_only = true;
    secure = is_secure;
    lifetime = browser;
  })

  -- The steps of `Verify`, the last one first.
  abbrev pub unexpired : ℕ → ℤ → ℤ → Session
  unexpired now user_id expiry =
      if ltb_ℤ expiry (pos (unix now)) then invalid "auth: session expired" else user user_id

  abbrev pub with_numbers : ℕ → Option ℤ → Option ℤ → Session
  with_numbers now none expiry = invalid "auth: malformed session user id"
  with_numbers now (some user_id) none = invalid "auth: malformed session expiry"
  with_numbers now (some user_id) (some expiry) = unexpired now user_id expiry

  abbrev pub with_fields : ℕ → Option (List ℕ × List ℕ) → Session
  with_fields now none = invalid "auth: malformed session fields"
  with_fields now (some (a, b)) = with_numbers now (parse_int a) (parse_int b)

  abbrev pub with_payload : ℕ → List ℕ → Option (List ℕ) → Session
  with_payload now signature none = invalid "auth: malformed session payload"
  with_payload now signature (some payload) =
      if same signature (sign payload)
      then with_fields now (split_once b'|' payload)
      else invalid "auth: invalid session signature"

  abbrev pub with_parts : ℕ → Option (List ℕ × List ℕ) → Session
  with_parts now none = invalid "auth: malformed session cookie"
  with_parts now (some (raw, signature)) = with_payload now signature (decode raw_url raw)

  unfoldable pub verify : ℕ → Option (List ℕ) → Session
  verify now none = invalid "auth: no session cookie"
  verify now (some value) = with_parts now (split_once b'.' value)
