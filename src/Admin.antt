-- ===== src/Admin.antt =====
-- internal/app/admin.go: the dashboard in the browser, with a session in a cookie. The HTML of the templates
-- is not modelled: a page is the template and what it shows. The form is nothing where it does not parse,
-- `random` is what crypto/rand gives for the token of the page, and times are as in `Auth.Session`.
pub mod Access
use gearshare.Prelude.{
  ℕ, String, Bool, true, false, not, ◌||◌, Option, none, some, List, [], ◌∷◌, map, if◌then◌else◌,
}
use gearshare.Prelude.Int.{ℤ, pos}
use gearshare.Model.User.{User, Role, admin, renter, owner}
use gearshare.Model.Booking.{Booking, Status}
use gearshare.Store.{M, Result, ok, err, Error, user_not_found, attempt, ◌>>=◌, pure}
use gearshare.Http.Cookie.{Cookie}
use gearshare.User.{get_by_email}
use gearshare.Booking.Repository.{list_recent}
use gearshare.Auth.Session.{
  SessionManager, Session, user, invalid, issue_cookie, clear_cookie, verify,
}
use gearshare.Auth.Tokens.{generate_token, issue_csrf_cookie}

-- `TotalPriceDollars` is the amount as `%.2f` prints it: here the amount.
pub record DashboardBookingRow : Type 0 where
  pub id : ℕ
  pub listing_id : ℕ
  pub renter_id : ℕ
  pub status : Status
  pub total_price_cents : ℤ

pub data Template : Type 0 where
  login_page : (error : String) (csrf_token : List ℕ) → Template
  dashboard_page : List DashboardBookingRow → (csrf_token : List ℕ) → Template

pub data Reply : Type 0 where
  page : ℕ → Template → List Cookie → Reply
  redirect : ℕ → String → List Cookie → Reply
  http_error : ℕ → String → Reply

abbrev pub is_admin : Role → Bool
is_admin admin = true
is_admin renter = false
is_admin owner = false

-- `errors.Is(err, user.ErrNotFound)`
abbrev pub is_not_found : Error → Bool
is_not_found user_not_found = true
is_not_found _ = false

-- `token, _ := auth.GenerateCSRFToken()`
abbrev token_or_empty : Option (List ℕ) → List ℕ
token_or_empty none = []
token_or_empty (some token) = token

-- RequireSession: the user id goes to the handler, and any error to the login page.
pub data Entry : Type 0 where
  enter : ℤ → Entry
  turn_away : Reply → Entry

abbrev entry : Session → Entry
entry (user id) = enter id
entry (invalid e) = turn_away (redirect 303 "/admin/login" [])

unfoldable pub require_session :
    (List ℕ → List ℕ → List ℕ) → SessionManager → ℕ → Option (List ℕ) → Entry
require_session hmac sessions now cookie = entry (verify hmac sessions now cookie)

module _ (secure : Bool) where
  unfoldable pub login_form : Option (List ℕ) → Reply
  unfolding generate_token
  login_form random = elim (generate_token random) [
    | none ↦ http_error 500 "internal error"
    | some token ↦ page 200 (login_page "" token) (issue_csrf_cookie token secure ∷ [])
  ]

  abbrev pub refused : Option (List ℕ) → Reply
  refused random =
      let token = token_or_empty (generate_token random) in
      page 401 (login_page "Invalid credentials or not an admin account" token)
        (issue_csrf_cookie token secure ∷ [])

  abbrev row_of : Booking → DashboardBookingRow
  row_of b = record {
    id = b.id;
    listing_id = b.listing_id;
    renter_id = b.renter_id;
    status = b.status;
    total_price_cents = b.total_price_cents;
  }

  abbrev shown : Option (List ℕ) → Result (List Booking) → Reply
  shown token (err e) = http_error 500 "could not load bookings"
  shown none (ok bookings) = http_error 500 "internal error"
  shown (some token) (ok bookings) =
      page 200 (dashboard_page (map row_of bookings) token) (issue_csrf_cookie token secure ∷ [])

  unfoldable pub dashboard : Option (List ℕ) → M Reply
  unfolding generate_token
  dashboard random = do
    bookings ← attempt (list_recent 50)
    pure (shown (generate_token random) bookings)

  module _ (hmac : List ℕ → List ℕ → List ℕ) (sessions : SessionManager)
      (matches : String → String → Bool)  -- `hasher.Verify`
    where
      abbrev pub answer : Option (List ℕ) → ℕ → String → Result User → Reply
      answer random now password (ok u) =
          if not (matches password u.password_hash) || not (is_admin u.role)
          then refused random
          else redirect 303 "/admin/dashboard"
              (issue_cookie hmac sessions (pos u.id) secure now ∷ [])
      answer random now password (err e) =
          if is_not_found e then refused random else http_error 500 "internal error"

      unfoldable pub login : Option (String × String) → Option (List ℕ) → ℕ → M Reply
      login none random now = pure (http_error 400 "invalid form")
      login (some (email, password)) random now = do
        row ← attempt (get_by_email email)
        pure (answer random now password row)

      unfoldable pub logout : Reply
      logout = redirect 303 "/admin/login" (clear_cookie hmac sessions secure ∷ [])
