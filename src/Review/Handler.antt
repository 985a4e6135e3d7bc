-- ===== src/Review/Handler.antt =====
-- internal/review/handler.go.
use gearshare.Prelude.{ℕ, String, Option, none, some}
use gearshare.Prelude.Int.{ℤ}
use gearshare.Model.Review.{Review}
use gearshare.Store.{M, Result, ok, err, invalid_rating, ◌>>=◌, pure, attempt}
use gearshare.Http.{Response, json, error, Claims}
use gearshare.Review as Service

pub record CreateRequest : Type 0 where
  pub booking_id : ℕ
  pub rating : ℤ
  pub comment : String

abbrev pub created : Result Review → Response Review
created (ok r) = json 201 r
created (err invalid_rating) = error 400 "rating must be between 1 and 5"
created (err _) = error 500 "could not create review"

unfoldable pub create : Option Claims → Option CreateRequest → M (Response Review)
create none req = pure (error 401 "authentication required")
create (some claims) none = pure (error 400 "invalid request body")
create (some claims) (some req) = do
  r ← attempt (Service.create req.booking_id claims.user_id req.rating req.comment)
  pure (created r)
