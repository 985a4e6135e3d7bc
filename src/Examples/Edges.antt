-- ===== src/Examples/Edges.antt =====
-- The theorems on Redis, the streams, search, accounts and the guards at the example.
use gearshare.Prelude.{ℕ, String, Bool, Option, none, some, List, []}
use gearshare.Prelude.Int.{ℤ}
use gearshare.Model.Booking.{requested}
use gearshare.Model.User.{Role, renter}
use gearshare.Store.{World}
use gearshare.Http.{Claims}
use gearshare.Cache.RateLimiter.{Redis}
use gearshare.Search.{Hit}
use gearshare.User.Service.{RegisterRequest}
use gearshare.Examples.{quiet}

abbrev here : World
here = quiet requested

-- Redis, up and down.
abbrev pub redis : Bool → Redis
redis down = record { counts = []; expiring = []; fails = λ _. down; issued = 0 }

-- LIKE as equality, and a search-indexer that gives no answer.
abbrev no_answer : String → ℤ → Option (List Hit)
no_answer _ _ = none

-- A hasher that keeps the password, and a signer of one token.
abbrev keep : String → Option String
keep password = some password

abbrev token_for : ℕ → Role → Option String
token_for _ _ = some "token"

abbrev nine : String → ℕ
nine _ = 9

abbrev carol : RegisterRequest
carol = record {
  email = "carol@example.org";
  password = "long-word";
  display_name = "Carol";
  role = "admin";
}

-- An issuer that takes every token for Bob's.
abbrev claims : Claims
claims = record { user_id = 2; role = renter }

abbrev verify : List ℕ → Option Claims
verify _ = some claims

abbrev digest : List ℕ → String
digest _ = "digest"
