-- ===== src/Listing/Service.antt =====
-- internal/listing/service.go and events.go.
pub mod Publishing
use gearshare.Prelude.{ℕ, String, Bool, true, false, ◌||◌, List, if◌then◌else◌}
use gearshare.Prelude.Int.{ℤ, pos, leb_ℤ}
use gearshare.Prelude.Text.{str_eq}
use gearshare.Model.Category.{Category}
use gearshare.Model.Listing.{Listing, active, FeedItem}
use gearshare.Model.Event.{publish_listing, listing_created, topic_listing_events}
use gearshare.Store.{
  M, Result, ok, err, ◌>>=◌, ◌>>◌, pure, fail_if, when, attempt, emit, invalid_input,
}
use gearshare.Listing.Repository as Rows
use gearshare.Listing.Feed.{optimized_feed, optimized_detail}
use gearshare.Category.{get_by_id as get_category}

pub record CreateInput : Type 0 where
  pub owner_id : ℕ
  pub category_id : ℕ
  pub title : String
  pub description : String
  pub price_per_day_cents : ℤ
  pub deposit_cents : ℤ

abbrev pub new_listing : CreateInput → Listing
new_listing input = record {
  id = 0;
  owner_id = input.owner_id;
  category_id = input.category_id;
  title = input.title;
  description = input.description;
  price_per_day_cents = input.price_per_day_cents;
  deposit_cents = input.deposit_cents;
  status = active;
  created_at = 0;
  updated_at = 0;
}

abbrev pub invalid : CreateInput → Bool
invalid input = str_eq input.title "" || leb_ℤ input.price_per_day_cents (pos 0)

abbrev pub name_of : Result Category → String
name_of (ok c) = c.name
name_of (err e) = ""

-- A publisher that is nil publishes nothing; one that fails is only printed.
unfoldable pub publish_created : Bool → Listing → String → M (Unit {0})
publish_created has_publisher l category_name = when has_publisher (
    emit (
      publish_listing topic_listing_events l.id (record {
        type = listing_created;
        listing_id = l.id;
        title = l.title;
        description = l.description;
        price_per_day_cents = l.price_per_day_cents;
        category_name = category_name;
        status = l.status;
      })))

unfoldable pub create : Bool → CreateInput → M Listing
create has_publisher input = do
  fail_if (invalid input) invalid_input
  id ← Rows.create (new_listing input)
  made ← Rows.get_by_id id
  cat ← attempt (get_category made.category_id)
  publish_created has_publisher made (name_of cat)
  pure made

unfoldable pub feed : ℕ → ℕ → M (List FeedItem)
unfolding optimized_feed
feed limit offset = optimized_feed limit offset

unfoldable pub get_detail : ℕ → M FeedItem
unfolding optimized_detail
get_detail id = optimized_detail id
