-- ===== src/Model/Category.antt =====
-- internal/category/model.go.
use gearshare.Prelude.{ℕ, String}

pub record Category : Type 0 where
  pub id : ℕ
  pub name : String
  pub slug : String
