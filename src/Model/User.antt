-- ===== src/Model/User.antt =====
-- internal/user/model.go: accounts. The role of a request is any text; the column holds three.
use gearshare.Prelude.{ℕ, String}

pub data Role : Type 0 where
  renter owner admin : Role

pub data PasswordAlgo : Type 0 where
  bcrypt scrypt : PasswordAlgo

pub record User : Type 0 where
  pub id : ℕ
  pub email : String
  pub password_hash : String
  pub password_algo : PasswordAlgo
  pub display_name : String
  pub role : Role
  pub created_at : ℕ
  pub updated_at : ℕ
