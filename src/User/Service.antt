-- ===== src/User/Service.antt =====
-- internal/user/service.go and handler.go. The password hasher and the token signer are parameters:
-- bcrypt, scrypt and the JWT library are not code of the repository.
pub mod Accounts
use gearshare.Prelude.{
  ℕ, String, Bool, true, false, not, ◌||◌, Option, none, some, List, ltb, length, if◌then◌else◌,
}
use gearshare.Prelude.Text.{codes, str_eq}
use gearshare.Model.User.{User, Role, renter, owner, admin, bcrypt}
use gearshare.Store.{
  M, Result, ok, err, Error, user_not_found, invalid_credentials, hash_failed, token_failed,
  email_taken, ◌>>=◌, ◌>>◌, pure, fail, or_fail, fail_if, attempt,
}
use gearshare.Http.{Response, json, error}
use gearshare.User.{create, get_by_email}

pub record AuthResult : Type 0 where
  pub user : User
  pub access_token : String

-- `in.Role`, where the empty text becomes renter.
pub record RegisterInput : Type 0 where
  pub email : String
  pub password : String
  pub display_name : String
  pub role : Option Role

abbrev pub role_of : Option Role → Role
role_of none = renter
role_of (some r) = r

abbrev pub new_user : RegisterInput → String → User
new_user input hash = record {
  id = 0;
  email = input.email;
  password_hash = hash;
  password_algo = bcrypt;
  display_name = input.display_name;
  role = role_of input.role;
  created_at = 0;
  updated_at = 0;
}

pub record RegisterRequest : Type 0 where
  pub email : String
  pub password : String
  pub display_name : String
  pub role : String

-- `Role(req.Role)`, which is made renter unless it is owner.
abbrev pub requested_role : String → Role
requested_role text = if str_eq text "owner" then owner else renter

abbrev pub incomplete : (String → ℕ) → RegisterRequest → Bool
incomplete bytes req =
    str_eq req.email "" || (ltb (bytes req.password) 8 || str_eq req.display_name "")

abbrev pub registered : Result AuthResult → Response AuthResult
registered (ok r) = json 201 r
registered (err email_taken) = error 409 "email already registered"
registered (err e) = error 500 "could not register user"

abbrev pub logged_in : Result AuthResult → Response AuthResult
logged_in (ok r) = json 200 r
logged_in (err invalid_credentials) = error 401 "invalid email or password"
logged_in (err e) = error 500 "could not log in"

-- `if errors.Is(err, ErrNotFound) { return nil, ErrInvalidCredentials }`
abbrev pub found_user : Result User → M User
found_user (ok u) = pure u
found_user (err user_not_found) = fail invalid_credentials
found_user (err e) = fail e

module _ (hash : String → Option String) (verify : String → String → Bool)
    (sign : ℕ → Role → Option String) (bytes : String → ℕ)  -- `len` of a Go string
  where
    unfoldable pub register : RegisterInput → M AuthResult
    register input = do
      hashed ← or_fail (hash input.password) hash_failed
      id ← create (new_user input hashed)
      token ← or_fail (sign id (role_of input.role)) token_failed
      pure (record { user = record (new_user input hashed) { id = id }; access_token = token })

    unfoldable pub login : String → String → M AuthResult
    login email password = do
      row ← attempt (get_by_email email)
      u ← found_user row
      fail_if (not (verify password u.password_hash)) invalid_credentials
      token ← or_fail (sign u.id u.role) token_failed
      pure (record { user = u; access_token = token })

    unfoldable pub handle_register : Option RegisterRequest → M (Response AuthResult)
    handle_register none = pure (error 400 "invalid request body")
    handle_register (some req) =
        if incomplete bytes req
        then pure
            (error 400 "email, display_name and a password of at least 8 characters are required")
        else (do
          r ← attempt (
              register (record {
                email = req.email;
                password = req.password;
                display_name = req.display_name;
                role = some (requested_role req.role);
              }))
          pure (registered r))

    unfoldable pub handle_login : Option (String × String) → M (Response AuthResult)
    handle_login none = pure (error 400 "invalid request body")
    handle_login (some (email, password)) = do
      r ← attempt (login email password)
      pure (logged_in r)
