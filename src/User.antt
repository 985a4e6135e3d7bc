-- ===== src/User.antt =====
-- internal/user/repository.go.
pub mod Service
pub mod Oauth
use gearshare.Prelude.{
  ℕ, suc, String, Bool, true, false, ◌&&◌, Option, none, some, List, [], ◌∷◌, ltb, length, ◌==◌,
  if◌then◌else◌, find, select, mem, by_key,
}
use gearshare.Prelude.Text.{str_eq, codes}
use gearshare.Model.User.{User, Role, renter, bcrypt}
use gearshare.Store.{
  World, Tables, M, Result, ok, err, ◌>>=◌, ◌>>◌, query, query_in_tx, exec, conflict, or_fail, pure,
  fail, Error, DbError, db, mysql, driver, user_not_found, email_taken, OauthIdentity,
}

-- `strings.Contains`, on code points.
starts_with : List ℕ → List ℕ → Bool
starts_with [] s = true
starts_with (c ∷ p) [] = false
starts_with (c ∷ p) (d ∷ s) = let rest = starts_with p s in if c == d then rest else false

unfoldable pub contains : List ℕ → List ℕ → Bool
unfolding starts_with
contains p [] = starts_with p []
contains p (c ∷ s) = let later = contains p s in if starts_with p (c ∷ s) then true else later

-- The text of a *mysql.MySQLError ends with the server's message; no other error of the driver is
-- about a duplicate.
unfoldable pub is_duplicate_key : Error → Bool
is_duplicate_key (db (mysql _ message)) = contains (codes "Duplicate entry") (codes message)
is_duplicate_key _ = false

-- INSERT, where UNIQUE KEY uq_users_email compares by the column's collation.
abbrev pub add_user : User → World → World
add_user u w = record w {
  primary = record (w.primary) {
    users = record u { id = w.next_user; created_at = w.now; updated_at = w.now } ∷ w.primary.users;
  };
  next_user = suc w.next_user;
}

abbrev pub email_used : String → World → Bool
email_used email w = ltb 0 (length (select (λ u. w.same_email u.email email) w.primary.users))

unfoldable pub insert_user : User → M ℕ
insert_user u w =
    if email_used u.email w
    then conflict "Duplicate entry for key 'users.uq_users_email'" w
    else exec (λ v. v.next_user) (add_user u) w

-- `if isDuplicateKey(err) { return 0, ErrEmailTaken }`
abbrev pub name_duplicate : Result ℕ → Result ℕ
name_duplicate (ok id) = ok id
name_duplicate (err e) = if is_duplicate_key e then err email_taken else err e

unfoldable pub create : User → M ℕ
create u w = let (r, w') = insert_user u w in (name_duplicate r, w')

-- `get` by the column "email" and by the column "id".
abbrev pub get_collation : M (String → String → Bool)
get_collation w = (ok w.same_email, w)

unfoldable pub get_by_email : String → M User
get_by_email email = do
  same ← get_collation
  row ← query (λ t. find (λ u. same u.email email) t.users)
  or_fail row user_not_found

unfoldable pub get_by_id : ℕ → M User
get_by_id id = do row ← query (λ t. find (λ u. u.id == id) t.users); or_fail row user_not_found

unfoldable pub get_by_ids : List ℕ → M (List (ℕ × User))
get_by_ids ids =
    if length ids == 0
    then pure []
    else query λ t. by_key (λ u. u.id) (select (λ u. mem u.id ids) t.users) []

-- UpsertOAuthIdentity, inside a transaction.
abbrev pub is_identity : String → String → OauthIdentity → Bool
is_identity provider subject i = str_eq i.provider provider && str_eq i.provider_user_id subject

abbrev pub oauth_user : String → String → User
oauth_user email name = record {
  id = 0;
  email = email;
  password_hash = "";
  password_algo = bcrypt;
  display_name = name;
  role = renter;
  created_at = 0;
  updated_at = 0;
}

abbrev pub add_identity : OauthIdentity → World → World
add_identity i w = record w {
  primary = record (w.primary) { oauth_identities = i ∷ w.primary.oauth_identities };
}

-- UNIQUE KEY uq_oauth_provider_subject is not reached: the lookup has found no such row.
abbrev pub link : String → String → String → String → M ℕ
link provider subject email name = do
  user_id ← insert_user (oauth_user email name)
  _ ←
      exec (λ _. tt)
        (add_identity
          (record { user_id = user_id; provider = provider; provider_user_id = subject }))
  pure user_id

unfoldable pub upsert_oauth_identity : String → String → String → String → M ℕ
upsert_oauth_identity provider subject email name = do
  row ← query_in_tx (λ t. find (is_identity provider subject) t.oauth_identities)
  elim row [ some i ↦ pure i.user_id | none ↦ link provider subject email name ]
