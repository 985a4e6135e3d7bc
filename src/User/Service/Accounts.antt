-- ===== src/User/Service/Accounts.antt =====
-- internal/user/service.go and handler.go: what a registration can write, and what a login tells.
use gearshare.Prelude.{
  ℕ, ◌≡◌, inl, inr, String, Bool, false, Option, none, some, ◌∷◌, arith, find, Bool-cases,
  Option-cases, if◌then◌else◌,
}
use gearshare.Model.User.{Role}
use gearshare.Store.{World, ok, reader, query}
use gearshare.Http.{Response, json, error}
use gearshare.User.{email_used, get_by_email}
use gearshare.User.Service.{
  AuthResult, RegisterInput, RegisterRequest, requested_role, new_user, login, handle_login,
}

-- One new account of the request: the first of the table, under an email that no row had.
abbrev pub Account : (String → Option String) → RegisterInput → World → World → Type 0
Account hash input w v =
    (h : String) × (id : ℕ) × (now : ℕ) × (hash input.password ≡ some h)
    × (email_used input.email w ≡ false)
    × (v.primary ≡ record (w.primary) {
      users =
          record (new_user input h) { id = id; created_at = now; updated_at = now }
          ∷ w.primary.users;
    })

module _ (hash : String → Option String) (verify : String → String → Bool)
    (sign : ℕ → Role → Option String) (bytes : String → ℕ) where
  abbrev input_of : RegisterRequest → RegisterInput
  input_of req = record {
    email = req.email;
    password = req.password;
    display_name = req.display_name;
    role = some (requested_role req.role);
  }

  -- The answer to a login where no statement fails: an unknown email and a wrong password are told the
  -- same.
  abbrev pub login_answer : String → String → World → Response AuthResult
  login_answer email password w = elim (find (λ u. w.same_email u.email email) (reader w).users) [
    | none ↦ error 401 "invalid email or password"
    | some u ↦
        if verify password u.password_hash
        then (elim (sign u.id u.role) [
          | none ↦ error 500 "could not log in"
          | some token ↦ json 200 (record { user = u; access_token = token })
        ])
        else error 401 "invalid email or password"
  ]

  -- Where no statement fails, a login is answered with a token exactly for the first user with the email,
  -- when the password fits its hash; an unknown email and a wrong password get one and the same answer.
  pub handle_login-answer :
      (email password : String) (w : World)
      → w.faults w.clock ≡ none
      → (handle_login hash verify sign bytes (some (email, password)) w).0
        ≡ ok (login_answer email password w)
  unfolding handle_login login get_by_email query
  handle_login-answer email password w q =
      elim (Option-cases (find (λ u. w.same_email u.email email) (reader w).users)) [
        | inl e ↦ ground (arith, q, e)
        | inr (u, e) ↦ elim (Bool-cases (verify password u.password_hash)) [
          | inr v ↦ ground (arith, q, e, v)
          | inl v ↦ elim (Option-cases (sign u.id u.role)) [
            | inl s ↦ ground (arith, q, e, v, s)
            | inr (token, s) ↦ ground (arith, q, e, v, s)
          ]
        ]
      ]
