-- ===== src/Examples.antt =====
-- One small database for the examples: an owner with a listing, a renter, and one booking of three days.
pub mod Bookings
pub mod Pages
pub mod Edges
pub mod Logins
pub mod Messages
pub mod Streams
pub mod Requests
pub mod Processes
pub mod Rushes
pub mod Mails
use gearshare.Prelude.{
  ℕ, String, Bool, true, false, Option, none, some, List, [], ◌∷◌, ◌+◌, ◌*◌, length, ◌==◌,
}
use gearshare.Prelude.Text.{str_eq}
use gearshare.Prelude.Int.{ℤ, pos}
use gearshare.Model.Booking.{Booking, Status, requested}
use gearshare.Model.Availability.{Block, booked}
use gearshare.Model.Listing.{Listing, active}
use gearshare.Model.User.{User, renter, owner, bcrypt}
use gearshare.Model.Category.{Category}
use gearshare.Model.Review.{Review}
use gearshare.Store.{World, Tables, ApiKey, Fault}
use gearshare.Booking.Pricing.{day_ns}
use gearshare.Booking.Create.{CreateBookingInput}
use gearshare.Booking.Service.{Service}

abbrev pub ann : User
ann = record {
  id = 1;
  email = "ann@example.org";
  password_hash = "secret-word";
  password_algo = bcrypt;
  display_name = "Ann";
  role = owner;
  created_at = 1;
  updated_at = 1;
}

abbrev pub bob : User
bob = record {
  id = 2;
  email = "bob@example.org";
  password_hash = "other-word";
  password_algo = bcrypt;
  display_name = "Bob";
  role = renter;
  created_at = 2;
  updated_at = 2;
}

abbrev pub tents : Category
tents = record { id = 1; name = "Tents"; slug = "tents" }

abbrev pub tent : Listing
tent = record {
  id = 1;
  owner_id = 1;
  category_id = 1;
  title = "Tent";
  description = "For two";
  price_per_day_cents = pos 1500;
  deposit_cents = pos 0;
  status = active;
  created_at = 3;
  updated_at = 3;
}

abbrev pub stay_of : Status → Booking
stay_of st = record {
  id = 1;
  listing_id = 1;
  renter_id = 2;
  start_date = 10 * day_ns;
  end_date = 12 * day_ns;
  status = st;
  total_price_cents = pos 4500;
  created_at = 4;
  updated_at = 4;
}

abbrev pub stay_block : Block
stay_block = record {
  id = 1;
  listing_id = 1;
  booking_id = some 1;
  start_date = 10 * day_ns;
  end_date = 12 * day_ns;
  reason = booked;
  created_at = 4;
}

abbrev pub good_review : Review
good_review = record {
  id = 1;
  booking_id = 1;
  reviewer_id = 2;
  rating = pos 5;
  comment = "Dry";
  created_at = 5;
}

abbrev pub partner_key : ApiKey
partner_key = record { owner_label = "partner"; key_hash = "digest"; revoked = false }

abbrev pub tables : Status → Tables
tables st = record {
  users = bob ∷ ann ∷ [];
  oauth_identities = [];
  api_keys = partner_key ∷ [];
  categories = tents ∷ [];
  listings = tent ∷ [];
  bookings = stay_of st ∷ [];
  blocks = stay_block ∷ [];
  reviews = good_review ∷ [];
}

abbrev pub world_with : Status → Option Tables → (ℕ → Option Fault) → Bool → World
world_with st replica faults down = record {
  primary = tables st;
  replica = replica;
  next_user = 3;
  next_listing = 2;
  next_booking = 2;
  next_block = 2;
  next_review = 2;
  faults = faults;
  clock = 0;
  now = 100;
  retries = 0;
  cache = [];
  redis_fails = λ _. down;
  redis_clock = 0;
  sent = [];
  same_email = str_eq;
  tie_rank = λ s. λ n. λ l. n + l.id;
  sql_avg = length;
}

-- Nothing fails and there is no replica.
abbrev pub quiet : Status → World
quiet st = world_with st none (λ _. none) false

abbrev pub service : Service
service = record { has_publisher = true; has_cache = true; has_notifier = true; has_sync = true }

-- The two days after the stay, and a day of it.
abbrev pub free_days : CreateBookingInput
free_days = record {
  listing_id = 1;
  renter_id = 2;
  start_date = 13 * day_ns;
  end_date = 14 * day_ns;
}

abbrev pub taken_days : CreateBookingInput
taken_days = record {
  listing_id = 1;
  renter_id = 2;
  start_date = 12 * day_ns;
  end_date = 14 * day_ns;
}
