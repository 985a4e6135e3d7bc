-- ===== src/Http/Cookie.antt =====
-- The `http.Cookie` that the handlers set, all of them with SameSite=Lax. The value of a cookie is the list
-- of its bytes.
use gearshare.Prelude.{ℕ, String, Bool, List, []}

-- `Expires`, in seconds since 1970, or `MaxAge`; with neither, the browser keeps the cookie while it runs.
pub data Lifetime : Type 0 where
  expires max_age : ℕ → Lifetime
  expired browser : Lifetime

pub record Cookie : Type 0 where
  pub name : String
  pub value : List ℕ
  pub path : String
  pub http_only : Bool
  pub secure : Bool
  pub lifetime : Lifetime

-- The same cookie, with MaxAge -1 and no value: the browser drops it.
abbrev pub cleared : Cookie → Cookie
cleared c = record c { value = []; lifetime = expired }
