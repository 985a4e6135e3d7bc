-- ===== src/Admin/Access.antt =====
-- internal/app/admin.go and internal/auth/session_cookie.go: who gets a session, and what it opens.
use gearshare.Prelude.{
  ℕ, ◌+◌, ◌≤◌, ◌≡◌, refl, inl, inr, String, Bool, true, Option, some, List, [], ◌∷◌, arith, All,
  ltb, find, find-All, Bool-cases, Option-cases, if◌then◌else◌,
}
use gearshare.Prelude.Int.{pos, int64_max}
use gearshare.Model.User.{User}
use gearshare.Store.{World, Result, Result-cases, ok, err, query, reader}
use gearshare.Http.Cookie.{Cookie}
use gearshare.User.{get_by_email}
use gearshare.Auth.Session.{SessionManager, unix, issue_cookie}
use gearshare.Auth.Session.Signed.{verify-issue_cookie}
use gearshare.Admin.{
  Reply, redirect, enter, turn_away, is_admin, is_not_found, require_session, answer, login,
}

get_by_email-found :
    (email : String) (w : World) (u : User)
    → (get_by_email email w).0 ≡ ok u
    → find (λ v. w.same_email v.email email) (reader w).users ≡ some u
unfolding get_by_email query
get_by_email-found email w u h = elim (Option-cases (w.faults w.clock)) [
  | inr (f, q) ↦ absurd (ground (arith, h, q))
  | inl q ↦ elim (Option-cases (find (λ v. w.same_email v.email email) (reader w).users)) [
    | inl e ↦ absurd (ground (arith, h, q, e))
    | inr (v, e) ↦ ground (arith, h, q, e)
  ]
]

module _ (hmac : List ℕ → List ℕ → List ℕ) (sessions : SessionManager)
    (matches : String → String → Bool) (secure : Bool) where
  -- An answer that sends the browser on is the session of an admin with this password.
  answer-Admin :
      (random : Option (List ℕ)) (now : ℕ) (password : String) (row : Result User) (code : ℕ)
      (url : String) (cookies : List Cookie)
      → answer secure hmac sessions matches random now password row ≡ redirect code url cookies
      → (u : User) × (row ≡ ok u)
        × (matches password u.password_hash ≡ true)
        × (is_admin u.role ≡ true)
        × (cookies ≡ issue_cookie hmac sessions (pos u.id) secure now ∷ [])
  answer-Admin random now password (ok u) code url cookies h =
      elim (Bool-cases (matches password u.password_hash)) [
        | inr m ↦ absurd (ground (arith, h, m))
        | inl m ↦ elim (Bool-cases (is_admin u.role)) [
          | inr a ↦ absurd (ground (arith, h, m, a))
          | inl a ↦ (u, refl, m, a, ground (arith, h, m, a))
        ]
      ]
  answer-Admin random now password (err e) code url cookies h = elim (Bool-cases (is_not_found e)) [
    | inl n ↦ absurd (ground (arith, h, n))
    | inr n ↦ absurd (ground (arith, h, n))
  ]

  login_row :
      (random : Option (List ℕ)) (now : ℕ) (email password : String) (w : World) (reply : Reply)
      → (login secure hmac sessions matches (some (email, password)) random now w).0 ≡ ok reply
      → answer secure hmac sessions matches random now password (get_by_email email w).0 ≡ reply
  unfolding login
  login_row random now email password w reply h = elim (Result-cases (get_by_email email w).0) [
    | inl (u, e) ↦ ground (arith, h, e)
    | inr (x, e) ↦ ground (arith, h, e)
  ]

  -- A login that sends the browser on has found the account of the email, an admin's, with a hash that the
  -- password fits. It sets one cookie, and with that cookie the dashboard is open to this admin until the
  -- cookie's expiry, to the second, and closed after it.
  pub login-Admin :
      (random : Option (List ℕ)) (now later : ℕ) (email password : String) (w : World) (code : ℕ)
      (url : String) (cookies : List Cookie)
      → All (λ u. u.id ≤ int64_max) (reader w).users
      → unix (now + sessions.ttl) ≤ int64_max
      → (login secure hmac sessions matches (some (email, password)) random now w).0
        ≡ ok (redirect code url cookies)
      → (u : User) × (find (λ v. w.same_email v.email email) (reader w).users ≡ some u)
        × (matches password u.password_hash ≡ true)
        × (is_admin u.role ≡ true)
        × (c : Cookie) × (cookies ≡ c ∷ [])
        × (require_session hmac sessions later (some c.value) ≡ (
            if ltb (unix (now + sessions.ttl)) (unix later)
            then turn_away (redirect 303 "/admin/login" [])
            else enter (pos u.id)))
  unfolding require_session
  login-Admin random now later email password w code url cookies ids fits h =
      let (u, row, m, a, c) =
        answer-Admin random now password (get_by_email email w).0 code url cookies
          (login_row random now email password w (redirect code url cookies) h) in
      let found = get_by_email-found email w u row in
      let small =
        find-All (λ v. v.id ≤ int64_max) (λ v. w.same_email v.email email) (reader w).users u ids
          found in
      (
        u,
        found,
        m,
        a,
        issue_cookie hmac sessions (pos u.id) secure now,
        c,
        rw (verify-issue_cookie hmac sessions (pos u.id) secure now later small fits)
            (ground arith),
      )
