-- ===== src/Store.antt =====
-- The stores behind internal/db/mysql.go and internal/cache: what a request can read and change,
-- and the statements that it issues. Every statement, commit and Redis command may fail.
pub mod Tx
pub mod Keeps
pub mod Pools
use gearshare.Prelude.{
  ◌≡◌, refl, ◌⊎◌, inl, inr, true, false, ℕ, suc, String, Bool, Option, none, some, List, ◌∷◌,
  if◌then◌else◌,
}
use gearshare.Prelude.Int.{ℤ}
use gearshare.Model.Booking.{Booking}
use gearshare.Model.Availability.{Block}
use gearshare.Model.Listing.{Listing, FeedItem}
use gearshare.Model.User.{User}
use gearshare.Model.Review.{Review}
use gearshare.Model.Category.{Category}
use gearshare.Model.Event.{Effect}

pub record OauthIdentity : Type 0 where
  pub user_id : ℕ
  pub provider : String
  pub provider_user_id : String

pub record ApiKey : Type 0 where
  pub owner_label : String
  pub key_hash : String
  pub revoked : Bool

-- The rows of each table, newest first.
pub record Tables : Type 0 where
  pub users : List User
  pub oauth_identities : List OauthIdentity
  pub api_keys : List ApiKey
  pub categories : List Category
  pub listings : List Listing
  pub bookings : List Booking
  pub blocks : List Block
  pub reviews : List Review

-- A *mysql.MySQLError has a number and a message; any other error of the driver has neither.
pub data DbError : Type 0 where
  mysql : ℕ → String → DbError
  driver : DbError

-- A statement that reports an error may have taken effect all the same, as when the connection is
-- lost after a commit.
pub record Fault : Type 0 where
  pub error : DbError
  pub applied : Bool

-- The error values of the packages. `fmt.Errorf("…: %w", err)` adds text that `errors.Is` and
-- `errors.As` see through, and no code reads, so it is left out.
pub data Error : Type 0 where
  db : DbError → Error
  no_rows nil_error : Error
  booking_not_found invalid_transition listing_unavailable invalid_date_range : Error
  listing_not_found invalid_input invalid_rating : Error
  user_not_found email_taken invalid_credentials hash_failed token_failed api_key_not_found : Error

-- The keys of the listing cache, and what is stored under them.
pub data CacheKey : Type 0 where
  feed : ℕ → ℕ → CacheKey
  detail : ℕ → CacheKey

pub data Payload : Type 0 where
  feed_page : List FeedItem → Payload
  listing_detail : FeedItem → Payload

-- The statements with ORDER BY created_at DESC on listings: that of ListActivePage, the JOIN of the feed, and the
-- search. created_at has whole seconds, and MySQL leaves the order of rows with the same one open: `tie_rank` is
-- the order that a statement finds, by its number.
pub data OrderedSelect : Type 0 where
  page_select feed_select search_select : OrderedSelect

-- The two connection pools, with no replica where both show the same server's rows. A counter of
-- AUTO_INCREMENT is not rolled back. `faults` and `redis_fails` say which statement and which Redis
-- command will fail, by the number issued before it.
pub record World : Type 0 where
  pub primary : Tables
  pub replica : Option Tables
  pub next_user : ℕ
  pub next_listing : ℕ
  pub next_booking : ℕ
  pub next_block : ℕ
  pub next_review : ℕ
  pub faults : ℕ → Option Fault
  pub clock : ℕ
  pub now : ℕ
  pub retries : ℕ  -- observability.BookingTransactionRetries
  pub cache : List (CacheKey × Payload)
  pub redis_fails : ℕ → Bool
  pub redis_clock : ℕ
  pub sent : List Effect
  pub same_email : String → String → Bool  -- the collation of users.email
  pub tie_rank : OrderedSelect → ℕ → Listing → ℕ
  pub sql_avg : List ℤ → ℕ  -- AVG, as the bit pattern of a float64

pub data Result {ℓ} (A : Type ℓ) : Type ℓ where
  ok : A → Result A
  err : Error → Result A

pub Result-cases {ℓ} :
    {A : Type ℓ} (r : Result A) → ((a : A) × (r ≡ ok a)) ⊎ ((e : Error) × (r ≡ err e))
Result-cases (ok a) = inl (a, refl)
Result-cases (err e) = inr (e, refl)

abbrev pub is_err {ℓ} : {A : Type ℓ} → Result A → Bool
is_err (ok _) = false
is_err (err _) = true

abbrev pub M : Type 0 → Type 0
M A = World → Result A × World

abbrev pub pure : {A : Type 0} → A → M A
pure a w = (ok a, w)

abbrev pub fail : {A : Type 0} → Error → M A
fail e w = (err e, w)

infixl 5 ◌>>=◌ ◌>>◌
abbrev pub ◌>>=◌ : {A B : Type 0} → M A → (A → M B) → M B
◌>>=◌ m f w = let (r, w') = m w in elim r [ ok a ↦ f a w' | err e ↦ (err e, w') ]

abbrev pub ◌>>◌ : {B : Type 0} → M (Unit {0}) → M B → M B
m >> k = m >>= λ _. k

abbrev pub when : Bool → M (Unit {0}) → M (Unit {0})
when c m = if c then m else pure tt

-- `if c { return nil, e }`
abbrev pub fail_if : Bool → Error → M (Unit {0})
fail_if c e = if c then fail e else pure tt

abbrev pub or_fail : {A : Type 0} → Option A → Error → M A
or_fail none e = fail e
or_fail (some a) e = pure a

-- The code goes on with what came back, error or not.
abbrev pub attempt : {A : Type 0} → M A → M (Result A)
attempt m w = let (r, w') = m w in (ok r, w')

-- time.Now()
abbrev pub get_now : M ℕ
get_now w = (ok w.now, w)

-- `d.Reader()`
unfoldable pub reader : World → Tables
reader w = elim w.replica [ none ↦ w.primary | some t ↦ t ]

abbrev pub tick : World → World
tick w = record w { clock = suc w.clock }

-- A SELECT on `Reader()`, and one inside a transaction.
unfoldable pub query : {A : Type 0} → (Tables → A) → M A
unfolding reader
query f w = elim (w.faults w.clock) [
  | none ↦ (ok (f (reader w)), tick w)
  | some x ↦ (err (db x.error), tick w)
]

unfoldable pub query_in_tx : {A : Type 0} → (Tables → A) → M A
query_in_tx f w = elim (w.faults w.clock) [
  | none ↦ (ok (f w.primary), tick w)
  | some x ↦ (err (db x.error), tick w)
]

-- An INSERT or UPDATE on the primary, with what it returns.
unfoldable pub exec : {A : Type 0} → (World → A) → (World → World) → M A
exec result write w = elim (w.faults w.clock) [
  | none ↦ (ok (result w), write (tick w))
  | some x ↦ (err (db x.error), if x.applied then write (tick w) else tick w)
]

-- An INSERT that a unique key refuses (ER_DUP_ENTRY).
unfoldable pub conflict : {A : Type 0} → String → M A
conflict message w = elim (w.faults w.clock) [
  | none ↦ (err (db (mysql 1062 message)), tick w)
  | some x ↦ (err (db x.error), tick w)
]

-- How the next statement orders ties, and how the database averages.
abbrev pub get_rank : OrderedSelect → M (Listing → ℕ)
get_rank s w = (ok (w.tie_rank s w.clock), w)

abbrev pub get_avg : M (List ℤ → ℕ)
get_avg w = (ok w.sql_avg, w)

abbrev pub emit : Effect → M (Unit {0})
emit e w = (ok tt, record w { sent = e ∷ w.sent })
